-- ===== src/Tests/ProofExamples.antt =====
-- The theorems on markers and chains at the fixture.
use yatagarasu.Prelude.{◌≡◌, ◌↔◌, refl, string_eq, nat_eq, arith}
use native.Mathlib.Decide.{ℕ_discrete}
use yatagarasu.Prelude.Int.{int_eq}
use yatagarasu.Reasons.{ok}
use yatagarasu.Types.{transport_submitted}
use yatagarasu.Proofs.Timestamps.{parse_timestamp}
use yatagarasu.Proofs.Markers.{mint, minted, sign, validate}
use yatagarasu.Proofs.Markers.Validity.{IsValidMarker, validate_iff, validate-mint}
use yatagarasu.Proofs.Chain.{prompt_chain, check_events}
use yatagarasu.Proofs.Chain.Spec.{IsChain, check_events_iff}
use yatagarasu.Tests.Fixture.{env, authority, marker, proof, registration, session_delivery}

mint_marker :
    mint env authority
      (session_delivery transport_submitted)
      "2026-07-19T00:00:00Z"
      "2026-07-19T00:02:00Z"
    ≡ minted marker
unfolding mint sign parse_timestamp string_eq nat_eq ℕ_discrete
mint_marker = refl

validate-mint_example :
    validate env authority marker (session_delivery transport_submitted) "2026-07-19T00:01:00Z"
    ≡ ok tt
unfolding parse_timestamp string_eq nat_eq ℕ_discrete
validate-mint_example =
    validate-mint env authority (session_delivery transport_submitted) "2026-07-19T00:00:00Z"
      "2026-07-19T00:02:00Z" "2026-07-19T00:01:00Z" marker 1000000000 1120000000 1060000000
      mint_marker refl refl refl (omega arith) (omega arith)

validate_iff_example :
    (validate env authority marker (session_delivery transport_submitted) "2026-07-19T00:01:00Z"
      ≡ ok tt)
    ↔ IsValidMarker env authority marker
        (session_delivery transport_submitted)
        "2026-07-19T00:01:00Z"
validate_iff_example =
    validate_iff env authority marker (session_delivery transport_submitted) "2026-07-19T00:01:00Z"

check_events_iff_example :
    (check_events proof (session_delivery transport_submitted) registration prompt_chain ≡ ok tt)
    ↔ IsChain proof (session_delivery transport_submitted) registration prompt_chain
check_events_iff_example =
    check_events_iff proof (session_delivery transport_submitted) registration prompt_chain
