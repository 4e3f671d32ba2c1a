-- ===== src/Hooks/Rules.antt =====
-- The tables of internal/hooks: what their entries have in common.
use traceboard.Prelude.{
  String, Bool, true, false, some, List, [], ◌∷◌, ◌≡◌, refl, subst, ◌==◌, ◌&&◌, arith, eq_iff, All,
  Bool-cases, inl, inr, if◌then◌else◌, or_else,
}
use traceboard.Event.Status.{unknown}
use traceboard.Event.Validate.{valid_status}
use traceboard.Hooks.Tables.{Rule, Adapter, canonical_lifecycle, registry}
use traceboard.Hooks.{find_entry, adapter_for}
use traceboard.Otlp.Contract.{NotEmpty}

-- An adapter that is found has the source that was asked for, which is not empty.
pub adapter_for-source :
    {source : String} (adapters : List Adapter)
    → All (λ a. NotEmpty (Adapter.source a)) adapters
    → (adapter : Adapter) → adapter_for source adapters ≡ some adapter
    → (adapter.source ≡ source) × NotEmpty source
unfolding adapter_for
adapter_for-source [] all adapter h = absurd (cc)
adapter_for-source {source} (a ∷ rest) all adapter h = elim (Bool-cases (a.source == source)) [
  | inl e ↦
      let same : a.source ≡ source = ground (arith, e, eq_iff a.source source) in
      let chosen : some a ≡ some adapter =
        subst (λ b. (if b then some a else adapter_for source rest) ≡ some adapter) e h in
      let found : a ≡ adapter = cc in
      (subst (λ x. Adapter.source x ≡ source) found same, subst NotEmpty same all.0)
  | inr e ↦
      adapter_for-source rest all.1 adapter
        (subst (λ b. (if b then some a else adapter_for source rest) ≡ some adapter) e h)
]

pub registry_named : All (λ a. NotEmpty (Adapter.source a)) registry
registry_named = (refl, (refl, (refl, (refl, (refl, tt)))))

abbrev pub or_unknown : String → String
or_unknown status = if status == "" then unknown else status

abbrev pub reads_valid : Rule → Bool
reads_valid r = valid_status (or_unknown r.status)

abbrev pub HasStatus : Rule → Type 0
HasStatus r = reads_valid r ≡ true

every_entry {ℓ} : {A : Type ℓ} → (A → Bool) → List (String × A) → Bool
every_entry test [] = true
every_entry test ((k, a) ∷ rest) = test a && every_entry test rest

-- What a test says of every entry, it says of the entry that a search finds.
find_entry-every_entry {ℓ} :
    {A : Type ℓ} (test : A → Bool) (key : String) (table : List (String × A)) (default : A)
    → test default ≡ true
    → every_entry test table ≡ true
    → test (or_else (find_entry key table) default) ≡ true
unfolding find_entry every_entry
find_entry-every_entry test key [] default d h = d
find_entry-every_entry test key ((k, a) ∷ rest) default d h = elim (Bool-cases (k == key)) [
  | inl e ↦ rw e (ground (arith, h))
  | inr e ↦ rw e (find_entry-every_entry test key rest default d (ground (arith, h)))
]

pub lifecycle-HasStatus :
    (canonical : String) (default : Rule)
    → HasStatus default
    → HasStatus (or_else (find_entry canonical canonical_lifecycle) default)
unfolding every_entry valid_status
lifecycle-HasStatus canonical default d =
    find_entry-every_entry reads_valid canonical canonical_lifecycle default d refl

pub chosen-HasStatus :
    (b : Bool) (r s : Rule) → HasStatus r → HasStatus s → HasStatus (if b then r else s)
chosen-HasStatus true r s h k = h
chosen-HasStatus false r s h k = k
