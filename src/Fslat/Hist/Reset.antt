-- ===== src/Fslat/Hist/Reset.antt =====
-- What `check_prof_reset` of lib.rs clears.
use ebpf_ldms.Prelude.{
  ℕ, zero, suc, ◌+◌, ◌≡◌, ◌≢◌, arith, some, none, List, [], ◌∷◌, get_elem?, set, ltb, leb, ◌==◌,
  ◌&&◌, if◌then◌else◌, Bool-cases, inl, inr, ==_iff,
}
use ebpf_ldms.Bpf.HashMap.{HashMap}
use ebpf_ldms.Fslat.Hist.{Prof, remove_bucket, remove_buckets, check_prof_reset}

set_first :
    (xs ys : List ℕ) (v w : ℕ)
    → get_elem? xs 0 ≡ some v
    → ys ≡ xs
    → get_elem? (set ys 0 w) 0 ≡ some w
set_first [] ys v w e f = cc
set_first (x ∷ xs) ys v w e f = rw f

module _ (h : HashMap ℕ ℕ) where
  -- The loop on one of the maps.
  remove_range : ℕ → ℕ → h.Map → h.Map
  remove_range zero i m = m
  remove_range (suc n) i m = remove_range n (i + 1) (h.remove m i)

  get-remove_range :
      (n i : ℕ) (m : h.Map) (j : ℕ)
      → h.get (remove_range n i m) j ≡ (if leb i j && ltb j (i + n) then none else h.get m j)
  unfolding remove_range
  get-remove_range zero i m j = ground arith
  get-remove_range (suc n) i m j = elim (Bool-cases (j == i)) [
    | inl e ↦
        let same : j ≡ i = (==_iff j i).0 e in
        ground (arith, get-remove_range n (i + 1) (h.remove m i) j, same, h.get-remove_self m i)
    | inr e ↦
        ground
          (arith, get-remove_range n (i + 1) (h.remove m i) j, h.get-remove_ne m j i (ground arith))
  ]

  -- Every bucket below 64 is gone, every other one is as it was.
  abbrev pub IsCleared : h.Map → h.Map → Type 0
  IsCleared m m' = (j : ℕ) → h.get m' j ≡ (if ltb j 64 then none else h.get m j)

  pub record IsReset (now : ℕ) (p q : Prof h) : Type 0 where
    pub ctrl : get_elem? q.ctrl 0 ≡ some now
    pub path_res : IsCleared p.path_res q.path_res
    pub path_walk : IsCleared p.path_walk q.path_walk
    pub path_assembly : IsCleared p.path_assembly q.path_assembly
    pub exit : IsCleared p.exit q.exit
    pub walk_iters : IsCleared p.walk_iters q.walk_iters
    pub ringbuf_drops : q.ringbuf_drops ≡ p.ringbuf_drops

  record Ranges (n i : ℕ) (p q : Prof h) : Type 0 where
    ctrl : q.ctrl ≡ p.ctrl
    path_res : q.path_res ≡ remove_range n i p.path_res
    path_walk : q.path_walk ≡ remove_range n i p.path_walk
    path_assembly : q.path_assembly ≡ remove_range n i p.path_assembly
    exit : q.exit ≡ remove_range n i p.exit
    walk_iters : q.walk_iters ≡ remove_range n i p.walk_iters
    ringbuf_drops : q.ringbuf_drops ≡ p.ringbuf_drops

  remove_buckets-Ranges : (n i : ℕ) (p : Prof h) → Ranges n i p (remove_buckets h n i p)
  unfolding remove_buckets remove_range remove_bucket
  remove_buckets-Ranges zero i p = ground arith
  remove_buckets-Ranges (suc n) i p =
      let q = remove_bucket h p i in
      let ih = remove_buckets-Ranges n (i + 1) q in
      record {
        ctrl = ih.ctrl;
        path_res = ih.path_res;
        path_walk = ih.path_walk;
        path_assembly = ih.path_assembly;
        exit = ih.exit;
        walk_iters = ih.walk_iters;
        ringbuf_drops = ih.ringbuf_drops;
      }

  IsCleared-of : (m m' : h.Map) → m' ≡ remove_range 64 0 m → IsCleared m m'
  IsCleared-of m m' e j = rw e (ground (arith, get-remove_range 64 0 m j))

  -- When the control register holds 1, the buckets below 64 of all five histograms are removed,
  -- the buckets from 64 on and the drop counter stay, and the register gets the time.
  -- When it holds another value, or is missing, nothing changes.
  pub check_prof_reset_lem :
      (now : ℕ) (p : Prof h)
      → (get_elem? p.ctrl 0 ≡ some 1 → IsReset now p (check_prof_reset h now p))
        × (get_elem? p.ctrl 0 ≢ some 1 → check_prof_reset h now p ≡ p)
  unfolding check_prof_reset
  check_prof_reset_lem now p = (
    λ e.
        rw (e, check_prof_reset)
          (let r = remove_buckets-Ranges 64 0 p in
            record {
              ctrl = set_first p.ctrl (remove_buckets h 64 0 p).ctrl 1 now e r.ctrl;
              path_res = IsCleared-of p.path_res _ r.path_res;
              path_walk = IsCleared-of p.path_walk _ r.path_walk;
              path_assembly = IsCleared-of p.path_assembly _ r.path_assembly;
              exit = IsCleared-of p.exit _ r.exit;
              walk_iters = IsCleared-of p.walk_iters _ r.walk_iters;
              ringbuf_drops = r.ringbuf_drops;
            }),
    λ ne. ground arith,
  )
