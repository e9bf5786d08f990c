-- ===== src/Sqlite/Tests.antt =====
-- The theorems on the SQL functions at a concrete engine.
use gengo.Prelude.{ℕ, ◌≡◌, ◌↔◌, refl, List, [], none, some, replicate, arith}
use gengo.Prelude.Text.{codes, c_str}
use gengo.Engine.{SaysTrue}
use gengo.Engine.Sample.{sample, throwing}
use gengo.Sqlite.{reason_size, Policy, accepted, rejected, validate, validate_args, reject_reason}
use gengo.Sqlite.Buffer.{IsReason}
use gengo.Sqlite.Validate.{validate-accepted}
use gengo.Sqlite.Reasons.{HasNoColon, validate-reason}

abbrev zeros : List ℕ
zeros = replicate reason_size 0

zeros-IsReason : IsReason reason_size zeros
zeros-IsReason = record { sized = refl; ended = refl }

abbrev policy : Policy sample
policy = record { engine = some (codes "x"); last_reason = zeros }

abbrev throwing_policy : Policy throwing
throwing_policy = record { engine = none; last_reason = zeros }

type_error-HasNoColon : HasNoColon (codes "TypeError")
type_error-HasNoColon = ground arith

validate-accepted_example :
    (((validate sample 5 (some (codes "EUR")) 1 policy).0 ≡ accepted) ↔ (
      (text : List ℕ) × (some (codes "EUR") ≡ some text)
      × SaysTrue
          (sample.call (some (codes "x")) (codes "validate") (validate_args sample 5 text 1)).1))
    × ((validate sample 5 (some (codes "EUR")) 1 policy).0 ≡ accepted
        → reject_reason sample (validate sample 5 (some (codes "EUR")) 1 policy).1 ≡ [])
validate-accepted_example = validate-accepted sample 5 (some (codes "EUR")) 1 policy

validate-reason_example :
    ((validate throwing 5 (some (codes "EUR")) 1 throwing_policy).0 ≡ rejected)
    × (reject_reason throwing (validate throwing 5 (some (codes "EUR")) 1 throwing_policy).1
        ≡ codes "not a number: qty")
unfolding c_str
validate-reason_example =
    validate-reason throwing 5 (codes "EUR") 1 throwing_policy (codes "TypeError")
      (codes "not a number: qty") zeros-IsReason refl refl type_error-HasNoColon refl (omega arith)
