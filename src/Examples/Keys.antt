-- ===== src/Examples/Keys.antt =====
-- Keys, paths, predicates and pages.
use kubernetes_controller_sh.Base.{
  String, ◌≡◌, refl, true, false, Option, none, some, [], ◌∷◌, arith, ◌==◌, if◌then◌else◌,
}
use kubernetes_controller_sh.Base.Int.{pos, ◌+ℤ◌, ◌*ℤ◌, ◌-ℤ◌}
use kubernetes_controller_sh.Base.Result.{ok}
use kubernetes_controller_sh.Base.Slash.{NoSlash}
use kubernetes_controller_sh.Api.Core.{Lease}
use kubernetes_controller_sh.Api.Labels.{get_label, find_label}
use kubernetes_controller_sh.Base.Map.{lookup}
use kubernetes_controller_sh.Sharding.Key.Injective.{for_metadata-injective}
use kubernetes_controller_sh.Webhook.Path.{
  webhook_path_for_controller_ring, controller_ring_for_webhook_path, controller_ring-webhook_path,
}
use kubernetes_controller_sh.Sharding.Predicate.{
  lease, update, PredicateLib, is_shard_lease_object, availability_differs, sharder_lease_predicate,
}
use kubernetes_controller_sh.Sharding.Predicate.Decides.{
  subject, run_funcs, all_pass, any_passes, IsDocumented, IsRingLease, unseen_update-from_leases,
}
use kubernetes_controller_sh.Leases.{
  is_available, to_state, to_state_of, to_times, times_of, times_at, released,
}
use kubernetes_controller_sh.Leases.Duration.{seconds, time_add, time_sub, add}
use kubernetes_controller_sh.Sharding.Ring.{from_leases}
use kubernetes_controller_sh.Pager
use kubernetes_controller_sh.Pager.{
  Reader, Page, ListOptions, ListPager, each_list_item, each_list_chunk,
}
use kubernetes_controller_sh.Pager.Pages.{
  last, more, each_list_item-Chain, AskedRight, asked-each_list_chunk, all_items, requested_limit,
}
use kubernetes_controller_sh.Examples.Data.{by_length, different, lease_of, at}

abbrev ab : String
ab = "ab"

abbrev name : String
name = "x/y"

no_slash : NoSlash ab
no_slash = (λ e. absurd (cc e), (λ e. absurd (cc e), tt))

for_metadata-injective_example : (ab ≡ ab) × (ab ≡ ab) × (ab ≡ ab) × (name ≡ name)
for_metadata-injective_example =
    for_metadata-injective ab ab ab name ab ab ab name (no_slash, no_slash, no_slash)
      (no_slash, no_slash, no_slash) refl

controller_ring-webhook_path_example :
    controller_ring_for_webhook_path (webhook_path_for_controller_ring "ab") ≡ ok "ab"
controller_ring-webhook_path_example =
    controller_ring-webhook_path "ab" no_slash (different _ _ refl) (different _ _ refl)
      (different _ _ refl)

-- The package predicate as it is documented.
abbrev lib : PredicateLib
lib = record {
  funcs = run_funcs;
  new_predicate_funcs = λ p e. p (subject e);
  all_of = all_pass;
  any_of = any_passes;
  generation_changed = λ e. true;
}

documented : IsDocumented lib
documented = record {
  funcs_lem = λ f e. refl;
  new_predicate_funcs_lem = λ p e. refl;
  all_of_lem = λ ps e. refl;
  any_of_lem = λ ps e. refl;
}

abbrev old : Lease
old = lease_of "shard" (some "shard")

abbrev new_lease : Lease
new_lease = lease_of "shard" (some "shardlease-controller")

labelled : (holder : Option String) → IsRingLease (lease_of "shard" holder)
unfolding get_label find_label lookup
labelled holder = different _ _ refl

abbrev renewed : Lease
renewed = record old { spec = record old.spec { renew_time = some (at 110) } }

renewed_labelled : IsRingLease renewed
unfolding get_label find_label lookup
renewed_labelled = different _ _ refl

renewed_unseen : sharder_lease_predicate lib (at 112) (update (lease old) (lease renewed)) ≡ false
unfolding sharder_lease_predicate is_shard_lease_object availability_differs is_available to_state
    to_state_of to_times times_of times_at released time_add time_sub add seconds ◌+ℤ◌ ◌*ℤ◌ ◌-ℤ◌
    get_label find_label lookup
renewed_unseen = refl

unseen_update-from_leases_example :
    (from_leases by_length (old ∷ []) (at 112)).0
    ≡ (from_leases by_length (renewed ∷ []) (at 112)).0
unseen_update-from_leases_example =
    unseen_update-from_leases lib documented (at 112) by_length [] [] old renewed
      (labelled (some "shard")) renewed_labelled refl renewed_unseen

-- Two pages: the first ends in a token, the second does not.
abbrev first_page : Page String
first_page = record { items = "a" ∷ "b" ∷ []; continue_token = "more" }

abbrev second_page : Page String
second_page = record { items = "c" ∷ []; continue_token = "" }

abbrev reader : Reader String
reader = record {
  page = λ round options. ok (if options.continue_token == "" then first_page else second_page);
  is_done = λ round. false;
  is_done_handling = λ round. false;
}

abbrev options : ListOptions
options = record {
  limit = pos 0;
  continue_token = "";
  resource_version = "0";
  resource_version_match = "";
}

each_list_item-Chain_example :
    each_list_item 2 (Pager.new reader) options ≡ (all_items (first_page ∷ second_page ∷ []), none)
unfolding Pager.new
each_list_item-Chain_example =
    each_list_item-Chain 2 (Pager.new reader) options (first_page ∷ second_page ∷ []) refl refl
      (λ n. refl)
      (more 0 _ first_page _ refl refl (different _ _ refl) (last 1 _ second_page refl refl refl))
      (omega arith)

asked-each_list_chunk_example :
    AskedRight
      (requested_limit (Pager.new reader) options)
      options
      (each_list_chunk 2 (Pager.new reader) options).asked
asked-each_list_chunk_example = asked-each_list_chunk 2 (Pager.new reader) options
