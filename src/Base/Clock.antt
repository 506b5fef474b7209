-- ===== src/Base/Clock.antt =====
-- Go's time.Time, as far as the program reads it: an instant, counted in nanoseconds from the zero
-- Time (instants before year 1 are left out), and whether its location is UTC. The zero Time is
-- the instant 0.
use Prim.Native.Nat.{ℕ}
use mathlib.Core.Bool.{Bool, ◌||◌, not}
use comis_dev_crew.Base.Tests.{◌==◌, ltb}

pub record Time : Type 0 where
  pub instant : ℕ
  pub utc : Bool

-- t.IsZero()
abbrev pub is_zero : Time → Bool
is_zero t = t.instant == 0

-- a.Before(b)
abbrev pub before : Time → Time → Bool
before a b = ltb a.instant b.instant

-- a.After(b)
abbrev pub after : Time → Time → Bool
after a b = ltb b.instant a.instant

-- `t.IsZero() || t.Location() != time.UTC`
abbrev pub not_utc_time : Time → Bool
not_utc_time t = is_zero t || not t.utc
