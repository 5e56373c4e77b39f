-- ===== src/Store/Providers.antt =====
-- The methods of `CoreStore` on providers, their evidence classes and their platform bindings.
use yatagarasu.Prelude.{
  String, Bool, true, not, ◌&&◌, Option, List, [], ◌∷◌, ◌++◌, ◌==◌, string_eq, find, any, update,
}
use yatagarasu.Types.{ProviderKind, EvidenceClass, evidence_class_eq, Delivery}
use yatagarasu.Store.Tables.{Store, Provider, PlatformMessageBinding, healthy, degraded}
use yatagarasu.Store.Exec.{Exec, insert, commit, transaction, for_each, ◌>>◌}
use yatagarasu.Store.Deliveries.{has_id}

unfoldable pub provider : String → Store → Option Provider
provider provider_id s = find (λ p. p.provider_id == provider_id) s.providers

abbrev pub has_provider : String → Store → Bool
has_provider provider_id s = any (λ (p : Provider). p.provider_id == provider_id) s.providers

unfoldable pub provider_declares : String → EvidenceClass → Store → Bool
provider_declares provider_id evidence s =
    any (λ e. e.provider_id == provider_id && e.evidence_class == evidence) s.provider_evidence

insert_provider : String → ProviderKind → Exec (Unit {0})
insert_provider provider_id kind =
    insert (λ s. not (has_provider provider_id s))
      (λ s. record s {
        providers =
            s.providers ++ record { provider_id = provider_id; kind = kind; health = healthy } ∷ [];
      })

insert_evidence : String → EvidenceClass → Exec (Unit {0})
unfolding provider_declares
insert_evidence provider_id evidence =
    insert (λ s. has_provider provider_id s && not (provider_declares provider_id evidence s))
      (λ s. record s {
        provider_evidence =
            s.provider_evidence
            ++ record { provider_id = provider_id; evidence_class = evidence } ∷ [];
      })

unfoldable pub register_provider : String → ProviderKind → List EvidenceClass → Exec (Unit {0})
unfolding insert_provider insert_evidence for_each
register_provider provider_id kind evidence_classes =
    transaction
      (do insert_provider provider_id kind; for_each (insert_evidence provider_id) evidence_classes)

unfoldable pub mark_provider_degraded : String → Exec (Unit {0})
mark_provider_degraded provider_id s = commit (record s {
  providers =
      update (λ p. p.provider_id == provider_id) (λ p. record p { health = degraded }) s.providers;
  in_transaction = true;
})

unfoldable pub bind_principal : String → String → String → Exec (Unit {0})
bind_principal provider_id platform_principal_id recipient_id = do
  insert
      (λ s.
        has_provider provider_id s
        && not (
            any
              (λ b.
                b.provider_id == provider_id && b.platform_principal_id == platform_principal_id)
              s.principal_bindings))
      (λ s. record s {
        principal_bindings =
            s.principal_bindings
            ++ record {
              provider_id = provider_id;
              platform_principal_id = platform_principal_id;
              recipient_id = recipient_id;
            }
              ∷ [];
      })
  commit

unfoldable pub bind_platform_message : PlatformMessageBinding → Exec (Unit {0})
bind_platform_message binding = do
  insert
      (λ s.
        has_provider binding.provider_id s
        && any (has_id binding.delivery_id) s.deliveries
        && not (
            any
              (λ b.
                b.provider_id == binding.provider_id
                && b.platform_message_id == binding.platform_message_id)
              s.platform_message_bindings))
      (λ s. record s { platform_message_bindings = s.platform_message_bindings ++ binding ∷ [] })
  commit

unfoldable pub principal_matches : String → String → String → Store → Bool
principal_matches provider_id platform_principal_id recipient_id s =
    any
      (λ b.
        b.provider_id == provider_id
        && b.platform_principal_id == platform_principal_id
        && b.recipient_id == recipient_id)
      s.principal_bindings

unfoldable pub message_binding_matches : String → String → Delivery → Store → Bool
message_binding_matches provider_id platform_message_id delivery s =
    any
      (λ b.
        b.provider_id == provider_id
        && b.platform_message_id == platform_message_id
        && b.event_id == delivery.event_id
        && b.delivery_id == delivery.delivery_id
        && b.attempt_id == delivery.attempt_id)
      s.platform_message_bindings
