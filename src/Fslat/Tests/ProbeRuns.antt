-- ===== src/Fslat/Tests/ProbeRuns.antt =====
-- The loader's table on a kernel where every program attaches.
use ebpf_ldms.Prelude.{
  ℕ, refl, ap, sym, some_injective, true, false, ◌≡◌, List, [], ◌∷◌, ◌++◌, some,
}
use ebpf_ldms.Fslat.Loader.{Host, main, Loads, stops, main-Loads}
use ebpf_ldms.Fslat.Probes.{Kind, FslatProbe, Aya, fslat_probes, programs, probes, attach_all}
use ebpf_ldms.Fslat.Probes.Attached.{start_all, attach_all-fslat_probes}

-- The names of the programs that are attached.
abbrev willing : Aya
willing = record {
  World = List (List ℕ);
  load = λ name k function w. some w;
  attach = λ name w. some (w ++ (name ∷ []));
}

attach_all-fslat_probes_example :
    attach_all willing (programs fslat_probes) probes [] ≡ start_all willing fslat_probes []
attach_all-fslat_probes_example = attach_all-fslat_probes willing []

-- A host that has all it takes, but on which the limit cannot be raised.
abbrev host : Host willing
host = record {
  exists = λ w. true;
  setrlimit = λ w. (1, w);
  from_sys_fs = λ w. some w;
  load = λ w. some (programs fslat_probes, w);
  init_logger = λ w. (false, w);
  set_handler = λ w. some w;
  recv = λ w. w;
}

attached_names : List FslatProbe → List (List ℕ)
attached_names [] = []
attached_names (p ∷ ps) = p.entry ∷ p.exit ∷ attached_names ps

main_runs : main willing host [] ≡ stops (attached_names fslat_probes)
unfolding main programs fslat_probes attached_names probes attach_all
main_runs = refl

main-Loads_example : Loads willing host [] (main willing host [])
main-Loads_example = main-Loads willing host [] (λ v v' ebpf e.
    ap (λ (p : List (List ℕ × Kind) × List (List ℕ)). p.0)
      (sym (some_injective (programs fslat_probes, v) (ebpf, v') e)))
