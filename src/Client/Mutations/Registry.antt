-- ===== src/Client/Mutations/Registry.antt =====
-- The hooks of useRegistryMutations.ts.
use agrocylo_pip.Prelude.{String, [], ◌∷◌}
use agrocylo_pip.Prelude.Decimal.{print_ℤ}
use agrocylo_pip.Prelude.Text.{concat}
use agrocylo_pip.Client.ContractClient.{bigint, registry, resolved, text}
use agrocylo_pip.Client.QueryKeys.{activity_key, farmer_key}
use agrocylo_pip.Client.Mutations.{Hook, RegisterCampaignInput}

abbrev pub use_register_farmer : (farmer name location : String) → Hook
use_register_farmer farmer name location = record {
  contract = registry;
  method = "register_farmer";
  args =
      resolved (("farmer", text farmer) ∷ ("name", text name) ∷ ("location", text location) ∷ []);
  success_title = "Farmer profile registered";
  error_title = "Could not register farmer profile";
  success_description = concat "Welcome, " (concat name ".");
  invalidated = farmer_key farmer ∷ [];
}

abbrev pub use_register_campaign : RegisterCampaignInput → Hook
use_register_campaign input = record {
  contract = registry;
  method = "register_campaign";
  args = resolved (
      ("campaign_id", bigint input.campaign_id)
      ∷ ("farmer", text input.farmer)
      ∷ ("title", text input.title)
      ∷ ("description", text input.description)
      ∷ []);
  success_title = "Campaign registered";
  error_title = "Could not register campaign";
  success_description = concat "Campaign #" (concat (print_ℤ input.campaign_id) " registered.");
  invalidated = activity_key (print_ℤ input.campaign_id) ∷ [];
}
