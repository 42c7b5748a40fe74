-- ===== src/Decode/Cache/Transparent.antt =====
-- src/decode.cpp: the cache of decoded instructions gives what decoding gives.
use rv64_vm.Prelude.{
  ℕ, Bool, true, false, ◌==◌, if◌then◌else◌, ◌≡◌, refl, ap, sym, ◌∙◌, ◌⊎◌, inl, inr, arith,
  Option-cases,
}
use rv64_vm.Hart.State.{InstructionData}
use rv64_vm.Decode.Cache.{
  InstructionCache, CacheSet, Decoder, cache_index, looked_up, found, make_data, decode_inst_slow,
  decode_inst, hits,
}

module _ (F : Type 0) (pext : ℕ → ℕ → ℕ) where
  -- An entry is what its word decodes to.
  pub record IsDecoded (d : Decoder F) (e : InstructionCache F) : Type 0 where
    pub inst : e.inst ≡ found F pext d e.bytes.inst
    pub bytes : e.bytes ≡ make_data F pext d e.bytes.inst

  -- An entry that nothing was decoded into has the address 0 and the word 0: all
  -- of them do at the start.
  abbrev pub IsFresh : InstructionCache F → Type 0
  IsFresh e = (e.pc ≡ 0) × (e.bytes.inst ≡ 0)

  abbrev IsEntry : Decoder F → InstructionCache F → Type 0
  IsEntry d e = IsFresh e ⊎ IsDecoded d e

  unfoldable pub IsCoherent : Decoder F → Type 0
  IsCoherent d = (i k : ℕ) → IsEntry d ((d.cache i).ways k)

  -- Decoding does not look at the cache.
  kept-IsDecoded :
      (d : Decoder F) (c : ℕ → CacheSet F) (e : InstructionCache F)
      → IsDecoded d e
      → IsDecoded (record d { cache = c }) e
  unfolding found looked_up make_data
  kept-IsDecoded d c e i = record { inst = i.inst; bytes = i.bytes }

  slow-decoded :
      (d : Decoder F) (epoch pc inst : ℕ)
      → let r = decode_inst_slow F pext d epoch pc inst in
        (r.entry.inst ≡ found F pext d inst) × (r.entry.bytes ≡ make_data F pext d inst)
  unfolding decode_inst_slow
  slow-decoded d epoch pc inst = elim (Option-cases (found F pext d inst)) [
    | inl n ↦ ground (arith, n)
    | inr (i, n) ↦ ground (arith, n)
  ]

  slow-IsDecoded :
      (d : Decoder F) (epoch pc inst : ℕ)
      → IsDecoded d (decode_inst_slow F pext d epoch pc inst).entry
  unfolding make_data
  slow-IsDecoded d epoch pc inst = record {
    inst = decoded.0 ∙ ap (found F pext d) (sym word);
    bytes = decoded.1 ∙ ap (make_data F pext d) (sym word);
  }
    where
      decoded :
          let r = decode_inst_slow F pext d epoch pc inst in
          (r.entry.inst ≡ found F pext d inst) × (r.entry.bytes ≡ make_data F pext d inst)
      decoded = slow-decoded d epoch pc inst

      word : (decode_inst_slow F pext d epoch pc inst).entry.bytes.inst ≡ inst
      word = ap (λ (b : InstructionData). b.inst) decoded.1

  kept-IsEntry :
      (d : Decoder F) (c : ℕ → CacheSet F) (e : InstructionCache F)
      → IsEntry d e
      → IsEntry (record d { cache = c }) e
  kept-IsEntry d c e (inl fresh) = inl fresh
  kept-IsEntry d c e (inr i) = inr (kept-IsDecoded d c e i)

  -- Both branches of a test.
  if-IsEntry :
      (d : Decoder F) (b : Bool) (x y : InstructionCache F)
      → IsEntry d x
      → IsEntry d y
      → IsEntry d (if b then x else y)
  if-IsEntry d true x y cx cy = cx
  if-IsEntry d false x y cx cy = cy

  if-set :
      (d : Decoder F) (b : Bool) (x y : CacheSet F) (k : ℕ)
      → IsEntry d (x.ways k)
      → IsEntry d (y.ways k)
      → IsEntry d ((if b then x else y).ways k)
  if-set d true x y k cx cy = cx
  if-set d false x y k cx cy = cy

  slow-IsCoherent :
      (d : Decoder F) (epoch pc inst : ℕ)
      → IsCoherent d
      → IsCoherent (decode_inst_slow F pext d epoch pc inst).decoder
  unfolding IsCoherent decode_inst_slow
  slow-IsCoherent d epoch pc inst c i k = kept-IsEntry d _ _ (
      if-set d (cache_index pc == i) _ _ k
        (if-IsEntry d ((d.cache (cache_index pc)).victim == k) _ _
          (inr (slow-IsDecoded d epoch pc inst)) (c (cache_index pc) k))
        (c i k))

  -- What a hit gives: an entry that nothing was decoded into is not hit.
  hit-decoded :
      (d : Decoder F) (epoch pc inst : ℕ) (e : InstructionCache F)
      → ¬ ((pc ≡ 0) × (inst ≡ 0))
      → IsEntry d e
      → hits F pext d epoch pc inst e ≡ true
      → (e.inst ≡ found F pext d inst) × (e.bytes ≡ make_data F pext d inst)
  hit-decoded d epoch pc inst e some_word (inl fresh) h = absurd (some_word (ground (arith, h)))
  hit-decoded d epoch pc inst e some_word (inr i) h =
      let word : e.bytes.inst ≡ inst = ground (arith, h) in
      (i.inst ∙ ap (found F pext d) word, i.bytes ∙ ap (make_data F pext d) word)

  -- From a cache each of whose entries is what its word decodes to, or has the address 0 and the word
  -- 0, `decode_inst` gives what looking the word up in the tables gives, hit or miss, and leaves such a
  -- cache, unless it is asked for the word 0 at the address 0.
  pub decode_inst_lem :
      (d : Decoder F) (epoch pc inst : ℕ)
      → IsCoherent d
      → ¬ ((pc ≡ 0) × (inst ≡ 0))
      → let r = decode_inst F pext d epoch pc inst in
        (r.entry.inst ≡ found F pext d inst)
        × (r.entry.bytes ≡ make_data F pext d inst)
        × IsCoherent r.decoder
  unfolding decode_inst IsCoherent
  decode_inst_lem d epoch pc inst c some_word =
      by_hits (hits F pext d epoch pc inst (set.ways 0)) refl
        (hits F pext d epoch pc inst (set.ways 1)) refl
    where
      set : CacheSet F
      set = d.cache (cache_index pc)

      by_hits :
          (a : Bool)
          → hits F pext d epoch pc inst (set.ways 0) ≡ a
          → (b : Bool) → hits F pext d epoch pc inst (set.ways 1) ≡ b
          → let r =
              if a
              then record { decoder = d; entry = set.ways 0 }
              else if b
              then record { decoder = d; entry = set.ways 1 }
              else decode_inst_slow F pext d epoch pc inst in
            (r.entry.inst ≡ found F pext d inst)
            × (r.entry.bytes ≡ make_data F pext d inst)
            × IsCoherent r.decoder
      by_hits true h b h' =
          let e = hit-decoded d epoch pc inst (set.ways 0) some_word (c (cache_index pc) 0) h in
          (e.0, e.1, c)
      by_hits false h true h' =
          let e = hit-decoded d epoch pc inst (set.ways 1) some_word (c (cache_index pc) 1) h' in
          (e.0, e.1, c)
      by_hits false h false h' =
          let e = slow-decoded d epoch pc inst in (e.0, e.1, slow-IsCoherent d epoch pc inst c)
