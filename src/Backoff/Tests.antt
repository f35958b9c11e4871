-- ===== src/Backoff/Tests.antt =====
-- backoff/backoff.go: some rounds, and each theorem at an input that meets its hypotheses.
use yakutil.Base.{◌≡◌, refl, arith}
use yakutil.Backoff.Spin.{Backoff, sleep, default_max, shift, delay, spin, reset}
use yakutil.Backoff.Phases.{spins, planned, spin-planned}

program : Unit {0}
unfolding shift delay spin reset
program = tt

abbrev short : Backoff
short = record { n = 9; spin_n = 1; yield_n = 2; max_wait = 0 }

seventh : (spin (spins 6 (reset short))).1 ≡ sleep 8000
unfolding program
seventh = refl

late : planned 1 2 default_max 5000000000 ≡ sleep 1000000
late = refl

spin-planned_example : (spin (spins 6 (reset short))).1 ≡ planned 1 2 default_max 6
spin-planned_example = spin-planned short 6 (omega arith)
