-- ===== src/Verifier/Verdict/Examples.antt =====
-- One certificate, verified.
use onomancy.Prelude.{ℕ, [], ◌∷◌, ◌≡◌, refl}
use onomancy.Prelude.Result.{ok}
use onomancy.Dnssec.Freshness.{Freshness}
use onomancy.Verifier.Evidence.{BindingEvidence}
use onomancy.Verifier.Verdict.Outcome.{Outcome, verify-Outcome}
use onomancy.Verifier.Verdict.{Verdict, on_path, verify}
use onomancy.Verifier.Fixtures.{validator, authority, cert, window, decoder}

abbrev verdict : Verdict
verdict = record {
  certificate = cert;
  document = 1;
  freshness = Freshness.fresh;
  generation = 21;
  generation_check = on_path;
  serial = 9;
  window = window;
}

verdict_reads : verify ℕ decoder (1 ∷ []) 3 100 validator authority ≡ ok verdict
unfolding verify onomancy.Verifier.Evidence.Validate.validate_record
    onomancy.Verifier.Evidence.Validate.zone_word onomancy.Prelude.Extremes.max_by_key
    onomancy.Verifier.Evidence.is_deferred onomancy.Verifier.Evidence.freshness
verdict_reads = refl

verify-Outcome_example :
    Outcome decoder validator authority
      (1 ∷ [])
      3
      100
      (verify ℕ decoder (1 ∷ []) 3 100 validator authority)
verify-Outcome_example = verify-Outcome decoder validator authority (1 ∷ []) 3 100
