-- ===== src/Shard/Builder.antt =====
-- pkg/shard/controller/builder.go: the builder of a sharded reconciler.
use kubernetes_controller_sh.Base.{
  String, ◌==◌, eq_iff, ◌≡◌, ◌≢◌, refl, ap, ◌∙◌, Option, none, some, if◌then◌else◌, arith,
}
use kubernetes_controller_sh.Base.Result.{Result, ok, err, ◌>>=◌, ◌>>◌, >>=-eq-ok, >>-eq-ok}
use mathlib.Core.Path.{subst}
use kubernetes_controller_sh.Shard.Controller.{Identity}

pub data BuildError : Type 0 where
  for_called_twice missing_reconciler missing_object missing_client missing_controller_ring_name
        missing_shard_name :
      BuildError

-- A nil field is `none`.
pub record Builder (Kind Client : Type 0) : Type 0 where
  pub object : Option Kind
  pub client : Option Client
  pub identity : Identity
  pub error : Option BuildError

pub record ShardedReconciler (Kind Client Delegate : Type 0) : Type 0 where
  pub object : Kind
  pub client : Client
  pub identity : Identity
  pub delegate : Delegate

module _ {Kind Client : Type 0} where
  -- `NewShardedReconciler`, with the client of the manager.
  unfoldable pub new_sharded_reconciler : Option Client → Builder Kind Client
  new_sharded_reconciler c = record {
    object = none;
    client = c;
    identity = record { controller_ring_name = ""; shard_name = "" };
    error = none;
  }

  second_for : Builder Kind Client → Option Kind → Kind → Builder Kind Client
  second_for b none kind = record b { object = some kind }
  second_for b (some k) kind = record b { error = some for_called_twice }

  unfoldable pub for_kind : Kind → Builder Kind Client → Builder Kind Client
  unfolding second_for
  for_kind kind b = second_for b b.object kind

  unfoldable pub with_client : Option Client → Builder Kind Client → Builder Kind Client
  with_client c b = record b { client = c }

  unfoldable pub in_controller_ring : String → Builder Kind Client → Builder Kind Client
  in_controller_ring name b = record b {
    identity = record b.identity { controller_ring_name = name };
  }

  unfoldable pub with_shard_name : String → Builder Kind Client → Builder Kind Client
  with_shard_name name b = record b { identity = record b.identity { shard_name = name } }

no_error : Option BuildError → Result BuildError (Unit {0})
no_error none = ok tt
no_error (some e) = err e

present : {A : Type 0} → BuildError → Option A → Result BuildError A
present e none = err e
present e (some a) = ok a

not_empty : BuildError → String → Result BuildError (Unit {0})
not_empty e s = if s == "" then err e else ok tt

no_error-eq-ok : (e : Option BuildError) → no_error e ≡ ok tt → e ≡ none
unfolding no_error
no_error-eq-ok none h = refl
no_error-eq-ok (some e) h = cc

present-eq-ok :
    {A : Type 0} (e : BuildError) (o : Option A) (a : A) → present e o ≡ ok a → o ≡ some a
unfolding present
present-eq-ok e none a h = cc
present-eq-ok e (some b) a h = cc

not_empty-eq-ok : (e : BuildError) (s : String) → not_empty e s ≡ ok tt → s ≢ ""
unfolding not_empty
not_empty-eq-ok e s h = ground (arith, eq_iff s "")

module _ {Kind Client Delegate : Type 0} where
  unfoldable pub build :
      Builder Kind Client
      → Option Delegate
      → Result BuildError (ShardedReconciler Kind Client Delegate)
  unfolding no_error present not_empty
  build b r = do
    no_error b.error
    delegate ← present missing_reconciler r
    object ← present missing_object b.object
    client ← present missing_client b.client
    not_empty missing_controller_ring_name b.identity.controller_ring_name
    not_empty missing_shard_name b.identity.shard_name
    ok (record { object = object; client = client; identity = b.identity; delegate = delegate })

  ok_inj :
      (x y : ShardedReconciler Kind Client Delegate)
      → ◌≡◌ {A = Result BuildError (ShardedReconciler Kind Client Delegate)} (ok x) (ok y)
      → x ≡ y
  ok_inj x y h = cc

  -- What `Build` returns is complete: no error was recorded, it is built from what the builder
  -- holds, and the names of the ring and of the shard are not empty.
  pub build-eq-ok :
      (b : Builder Kind Client) (r : Option Delegate)
      (built : ShardedReconciler Kind Client Delegate)
      → build b r ≡ ok built
      → (b.error ≡ none)
        × (b.object ≡ some built.object)
        × (b.client ≡ some built.client)
        × (r ≡ some built.delegate)
        × (b.identity ≡ built.identity)
        × (built.identity.controller_ring_name ≢ "")
        × (built.identity.shard_name ≢ "")
  unfolding build
  build-eq-ok b r built h =
      let (e0, h0) = >>-eq-ok _ _ h in
      let (delegate, e1, h1) = >>=-eq-ok _ _ h0 in
      let (object, e2, h2) = >>=-eq-ok _ _ h1 in
      let (client, e3, h3) = >>=-eq-ok _ _ h2 in
      let (e4, h4) = >>-eq-ok _ _ h3 in
      let (e5, h5) = >>-eq-ok _ _ h4 in
      let same = ok_inj _ _ h5 in
      let identity = ap (λ x. x.identity) same in
      (
        no_error-eq-ok _ e0,
        present-eq-ok _ _ _ e2 ∙ ap (λ x. some x.object) same,
        present-eq-ok _ _ _ e3 ∙ ap (λ x. some x.client) same,
        present-eq-ok _ _ _ e1 ∙ ap (λ x. some x.delegate) same,
        identity,
        subst (λ i. i.controller_ring_name ≢ "") identity (not_empty-eq-ok _ _ e4),
        subst (λ i. i.shard_name ≢ "") identity (not_empty-eq-ok _ _ e5),
      )
