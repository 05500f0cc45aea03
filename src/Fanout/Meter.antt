-- ===== src/Fanout/Meter.antt =====
-- The monthly budget over a whole fan-out.
use ml_service.Prelude.{ℕ, ◌≤◌, max, ◌≡◌, ◌⊎◌, List, sum_of}
use ml_service.Backend.{unexpected, Reply, ok, err, Tables}
use ml_service.SendLog.{Instant}
use ml_service.Share.{PlatformConfig, ShareSettings, Sharing, Outside}
use ml_service.Share.Growth.{IsWritten, spent, Grew}
use ml_service.Fanout.{EventRequest, StudentResult, FanoutSummary}

-- `n` photos more, as many rows, and the month is within the cap or as it was.
abbrev pub Metered : ShareSettings → Instant → ℕ → ℕ → Sharing → Sharing → Type 0
Metered s now school n w w' =
    Grew now school n w w' × (spent now school w' ≤ max s.cap (spent now school w))

module _ {Image : Type 0} (p : Outside Image) (written : IsWritten p) (s : ShareSettings)
    (platform : PlatformConfig) (now : Instant) (req : EventRequest) (db : Tables) where
  OneMetered : Sharing → Reply StudentResult × Sharing → Type 0
  OneMetered w (ok r, w') = Metered s now req.school_id r.sent w w'
  OneMetered w (err e, w') = (n : ℕ) × Metered s now req.school_id n w w'

  AllMetered : Sharing → Reply (List StudentResult) × Sharing → Type 0
  AllMetered w (ok rs, w') = Metered s now req.school_id (sum_of (λ r. r.sent) rs) w w'
  AllMetered w (err e, w') = (n : ℕ) × Metered s now req.school_id n w w'

  -- What a fan-out leaves: what it says it sent, or nothing.
  abbrev pub KeepsBudget : Sharing → Reply FanoutSummary × Sharing → Type 0
  KeepsBudget w (ok summary, w') = Metered s now req.school_id summary.sent w w'
  KeepsBudget w (err e, w') =
      (w' ≡ w) ⊎ ((e ≡ unexpected) × ((n : ℕ) × Metered s now req.school_id n w w'))
