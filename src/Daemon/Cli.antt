-- ===== src/Daemon/Cli.antt =====
-- The options of the daemon and their repair: daemon/ebpf_ldms/src/cli.rs.
use ebpf_ldms.Prelude.{ℕ, zero, suc, ◌≤◌, ◌≡◌, refl, arith, List}

pub record EbpfLdms : Type 0 where
  pub stream : List ℕ
  pub msglimit : ℕ
  pub interval : ℕ
  pub host : List ℕ
  pub port : List ℕ
  pub authentication : List ℕ
  pub hostname : List ℕ
  pub logfile : List ℕ

-- The match of `parse_ratelimit`: the number of messages and the seconds of an interval.
unfoldable pub ratelimit_of : ℕ → ℕ → ℕ × ℕ
ratelimit_of zero zero = (1, 1)
ratelimit_of zero (suc j) = (1, suc j)
ratelimit_of (suc i) zero = (suc i, 1)
ratelimit_of (suc i) (suc j) = (suc i, suc j)

unfoldable pub parse_ratelimit : EbpfLdms → EbpfLdms
unfolding ratelimit_of
parse_ratelimit cli = record cli {
  msglimit = (ratelimit_of cli.msglimit cli.interval).0;
  interval = (ratelimit_of cli.msglimit cli.interval).1;
}

-- A limit that lets a message through in every interval.
pub record IsLimit (cli : EbpfLdms) : Type 0 where
  pub msglimit : 1 ≤ cli.msglimit
  pub interval : 1 ≤ cli.interval

ratelimit_of-positive : (i j : ℕ) → (1 ≤ (ratelimit_of i j).0) × (1 ≤ (ratelimit_of i j).1)
unfolding ratelimit_of
ratelimit_of-positive zero zero = omega arith
ratelimit_of-positive zero (suc j) = omega arith
ratelimit_of-positive (suc i) zero = omega arith
ratelimit_of-positive (suc i) (suc j) = omega arith

ratelimit_of-kept : (i j : ℕ) → 1 ≤ i → 1 ≤ j → ratelimit_of i j ≡ (i, j)
unfolding ratelimit_of
ratelimit_of-kept zero j hi hj = elim hi [ ]
ratelimit_of-kept (suc i) zero hi hj = elim hj [ ]
ratelimit_of-kept (suc i) (suc j) hi hj = refl

-- The repaired options always hold a limit of at least one message in at least one second, and
-- options that hold one already stay as they are, so that a second repair changes nothing.
pub parse_ratelimit-IsLimit :
    (cli : EbpfLdms)
    → IsLimit (parse_ratelimit cli)
      × (IsLimit cli → parse_ratelimit cli ≡ cli)
      × (parse_ratelimit (parse_ratelimit cli) ≡ parse_ratelimit cli)
unfolding parse_ratelimit
parse_ratelimit-IsLimit cli =
    let kept : (c : EbpfLdms) → IsLimit c → parse_ratelimit c ≡ c =
      λ c w. rw (parse_ratelimit, ratelimit_of-kept c.msglimit c.interval w.msglimit w.interval) in
    let (hi, hj) = ratelimit_of-positive cli.msglimit cli.interval in
    let limit : IsLimit (parse_ratelimit cli) = record { msglimit = hi; interval = hj } in
    (limit, kept cli, kept (parse_ratelimit cli) limit)
