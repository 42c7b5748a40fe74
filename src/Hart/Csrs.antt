-- ===== src/Hart/Csrs.antt =====
-- The CSR addresses and masks of include/defines/csr.hpp.
use rv64_vm.Prelude.{ℕ}

abbrev pub fflags : ℕ
fflags = 0x1

abbrev pub frm : ℕ
frm = 0x2

abbrev pub fcsr : ℕ
fcsr = 0x3

abbrev pub cycle : ℕ
cycle = 0xc00

abbrev pub time : ℕ
time = 0xc01

abbrev pub instret : ℕ
instret = 0xc02

abbrev pub hpmcounter3 : ℕ
hpmcounter3 = 0xc03

abbrev pub hpmcounter31 : ℕ
hpmcounter31 = 0xc1f

abbrev pub sstatus : ℕ
sstatus = 0x100

abbrev pub sie : ℕ
sie = 0x104

abbrev pub stvec : ℕ
stvec = 0x105

abbrev pub scounteren : ℕ
scounteren = 0x106

abbrev pub scountovf : ℕ
scountovf = 0xda0

abbrev pub sstateen0 : ℕ
sstateen0 = 0x10c

abbrev pub sstateen3 : ℕ
sstateen3 = 0x10f

abbrev pub sepc : ℕ
sepc = 0x141

abbrev pub scause : ℕ
scause = 0x142

abbrev pub stval : ℕ
stval = 0x143

abbrev pub sip : ℕ
sip = 0x144

abbrev pub stimecmp : ℕ
stimecmp = 0x14d

abbrev pub satp : ℕ
satp = 0x180

abbrev pub mvendorid : ℕ
mvendorid = 0xf11

abbrev pub marchid : ℕ
marchid = 0xf12

abbrev pub mimpid : ℕ
mimpid = 0xf13

abbrev pub mhartid : ℕ
mhartid = 0xf14

abbrev pub mstatus : ℕ
mstatus = 0x300

abbrev pub misa : ℕ
misa = 0x301

abbrev pub medeleg : ℕ
medeleg = 0x302

abbrev pub mideleg : ℕ
mideleg = 0x303

abbrev pub mie : ℕ
mie = 0x304

abbrev pub mtvec : ℕ
mtvec = 0x305

abbrev pub mcounteren : ℕ
mcounteren = 0x306

abbrev pub mstateen0 : ℕ
mstateen0 = 0x30c

abbrev pub mstateen3 : ℕ
mstateen3 = 0x30f

abbrev pub mcyclecfg : ℕ
mcyclecfg = 0x321

abbrev pub mepc : ℕ
mepc = 0x341

abbrev pub mcause : ℕ
mcause = 0x342

abbrev pub mtval : ℕ
mtval = 0x343

abbrev pub mip : ℕ
mip = 0x344

abbrev pub mcycle : ℕ
mcycle = 0xb00

abbrev pub minstret : ℕ
minstret = 0xb02

abbrev pub tselect : ℕ
tselect = 0x7a0

abbrev pub tdata1 : ℕ
tdata1 = 0x7a1

abbrev pub tdata3 : ℕ
tdata3 = 0x7a3

abbrev pub mtopi : ℕ
mtopi = 0xfb0

abbrev pub sstatus_mask : ℕ
sstatus_mask = 0x80000003000de762

abbrev pub se_mask : ℕ
se_mask = 0x222

abbrev pub mstatus_ro_mask : ℕ
mstatus_ro_mask = 0xf00000000
