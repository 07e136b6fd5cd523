-- ===== src/Compat/CpuFeatures.antt =====
-- api/compat/cpufeatures.go: the flags that name instructions, and the rule that compares them.
-- The tables are functions of nothing, so that a proof can leave them shut.
use snapshot.Prelude.{
  Str, List, [], ◌∷◌, ◌++◌, ◌==◌, ◌||◌, is_space, codes, cons_head, join, if◌then◌else◌,
}
use snapshot.Compat.Types.{Libs, Environment, Mismatch, unset}

-- The pieces between white space, empty ones too.
unfoldable pub split_space : Str → List Str
unfolding is_space
split_space [] = [] ∷ []
split_space (c ∷ s) = let rest = split_space s in if is_space c then [] ∷ rest else cons_head c rest

abbrev drop_empty : List Str → List Str
drop_empty [] = []
drop_empty ([] ∷ ss) = drop_empty ss
drop_empty ((c ∷ s) ∷ ss) = (c ∷ s) ∷ drop_empty ss

-- strings.Fields
unfoldable pub fields : Str → List Str
unfolding split_space
fields s = drop_empty (split_space s)

-- x86InstructionSets
unfoldable pub x86_instruction_sets : Unit {0} → List Str
unfolding fields
x86_instruction_sets _ =
    fields (codes "fpu tsc cx8 sep cmov clflush mmx fxsr sse sse2 syscall mmxext rdtscp 3dnowext")
    ++ fields
        (codes "3dnow nopl pni pclmulqdq ssse3 fma cx16 sse4_1 sse4_2 movbe popcnt aes xsave avx")
    ++ fields
        (codes "f16c rdrand lahf_lm abm sse4a misalignsse 3dnowprefetch xop fma4 tbm fsgsbase")
    ++ fields (codes "bmi1 hle avx2 bmi2 erms rtm mpx avx512f avx512dq rdseed adx avx512ifma")
    ++ fields (codes "clflushopt clwb avx512pf avx512er avx512cd sha_ni avx512bw avx512vl xsaveopt")
    ++ fields (codes "xsavec xgetbv1 avx512vbmi avx512_vbmi2 gfni vaes vpclmulqdq avx512_vnni")
    ++ fields
        (codes "avx512_bitalg avx512_vpopcntdq rdpid clzero avx512_4vnniw avx512_4fmaps avx_vnni")
    ++ fields
        (codes "avx_ifma avx512_bf16 avx512_fp16 avx512_vp2intersect amx_bf16 amx_tile amx_int8")
    ++ fields (codes "amx_fp16 movdiri movdir64b serialize")

-- arm64InstructionSets
unfoldable pub arm64_instruction_sets : Unit {0} → List Str
unfolding fields
arm64_instruction_sets _ =
    fields (codes "fp asimd aes pmull sha1 sha2 crc32 atomics fphp asimdhp cpuid asimdrdm jscvt")
    ++ fields
        (codes "fcma lrcpc dcpop sha3 sm3 sm4 asimddp sha512 sve asimdfhm dit uscat ilrcpc flagm")
    ++ fields
        (codes "ssbs sb paca pacg gcs ls64 dcpodp sve2 sveaes svepmull svebitperm svesha3 svesm4")
    ++ fields (codes "flagm2 frint svei8mm svef32mm svef64mm svebf16 i8mm bf16 rng bti mte ecv afp")
    ++ fields (codes "rpres mte3 sme smei16i64 smef64f64 smei8i32 smef16f32 smeb16f32 smef32f32")
    ++ fields (codes "smefa64 wfxt ebf16 sveebf16 cssc sve2p1 sme2 sme2p1 smei16i32 smebi32i32")
    ++ fields (codes "smeb16b16 smef16f16 mops hbc sveb16b16 lrcpc3 lse128 fpmr lut faminmax f8cvt")
    ++ fields
        (codes "f8fma f8dp4 f8dp2 f8e4m3 f8e5m2 smelutv2 smef8f16 smef8f32 smesf8fma smesf8dp4")
    ++ fields
        (codes "smesf8dp2 poe cmpbr fprcvt f8mm8 f8mm4 svef16mm sveeltperm sveaes2 svebfscale")
    ++ fields
        (codes "sve2p2 sme2p2 smesbitperm smeaes smesfexpa smestmop smesmop4 mtefar mtestoreonly")
    ++ fields (codes "lsfe sveb16mm sve2p3 smelut6 sme2p3 f16mm f16f32dot f16f32mm svelut6")

module _ (k : Libs) where
  -- instructionSets, over the union of the two tables.
  unfoldable pub instruction_sets : List Str → k.Set
  instruction_sets flags =
      k.intersection (k.new (x86_instruction_sets tt ++ arm64_instruction_sets tt)) (k.new flags)

  -- InstructionSetFeatures: what a checkpoint publishes.
  unfoldable pub instruction_set_features : List Str → List Str
  unfolding instruction_sets
  instruction_set_features flags =
      let features = instruction_sets flags in if k.len features == 0 then [] else k.list features

  unfoldable pub cpu_features_rule : Environment → Environment → List Mismatch
  cpu_features_rule source target =
      let needed = instruction_sets source.cpu_features in
      let offered = instruction_sets target.cpu_features in
      let missing = k.difference needed offered in
      if k.len needed == 0 || k.len offered == 0
      then []
      else if k.len missing == 0
      then []
      else record {
        check = unset;
        source = join (codes ",") (k.list missing);
        target = codes "missing";
      }
        ∷ []
