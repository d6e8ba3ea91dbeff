-- ===== src/ChainConfig/Enabled.antt =====
-- The enabled chains: supported, different, some, and with a configuration each.
use mathlib.Core.List.{Mem, Mem-prop, mem-cons, mem-cons_self, mem-cons_of_mem, not-mem-nil}
use mathlib.Core.Logic.Or
use mathlib.Core.Bool.{false≢true}
use py_wallet_snapshot_servi.Prelude.{
  ◌≡◌, ◌≢◌, ap, refl, sym, mem-filter_of, text_eq_sound, text_eq_refl, ◌∙◌, Bool, true, false, not,
  is_some, List, [], ◌∷◌, filter, Bool-cases, inl, inr, Text, text_eq, text_in, All, All-mono,
  Pairwise, arith,
}
use py_wallet_snapshot_servi.ChainConfig.{
  ChainSettings, parts, supported_chains, unique, or_all, get_enabled_chains, get_chain_configs,
  get_config,
}

abbrev DifferentText : Text → Text → Type 0
DifferentText s t = text_eq s t ≡ false

-- Filters keep what holds of all or of pairs.
filter-All : (P : Text → Type 0) (p : Text → Bool) (ss : List Text) → All P ss → All P (filter p ss)
filter-All P p [] a = tt
filter-All P p (s ∷ ss) a = elim (Bool-cases (p s)) [
  | inl e ↦ rw e (a.0, filter-All P p ss a.1)
  | inr e ↦ rw e (filter-All P p ss a.1)
]

filter-Pairwise :
    (p : Text → Bool) (ss : List Text)
    → Pairwise DifferentText ss
    → Pairwise DifferentText (filter p ss)
filter-Pairwise p [] a = tt
filter-Pairwise p (s ∷ ss) a = elim (Bool-cases (p s)) [
  | inl e ↦ rw e (filter-All (DifferentText s) p ss a.0, filter-Pairwise p ss a.1)
  | inr e ↦ rw e (filter-Pairwise p ss a.1)
]

-- What a filter keeps passes it.
filter-passed : (p : Text → Bool) (ss : List Text) → All (λ s. p s ≡ true) (filter p ss)
filter-passed p [] = tt
filter-passed p (s ∷ ss) = elim (Bool-cases (p s)) [
  | inl e ↦ rw e (e, filter-passed p ss)
  | inr e ↦ rw e (filter-passed p ss)
]

All-both : (P Q : Text → Type 0) (ss : List Text) → All P ss → All Q ss → All (λ s. P s × Q s) ss
All-both P Q [] a b = tt
All-both P Q (s ∷ ss) a b = ((a.0, b.0), All-both P Q ss a.1 b.1)

unique-All : (P : Text → Type 0) (ss : List Text) → All P ss → All P (unique ss)
unfolding unique
unique-All P [] a = tt
unique-All P (s ∷ ss) a =
    (a.0, filter-All P (λ t. not (text_eq s t)) (unique ss) (unique-All P ss a.1))

-- Every element of a list is a member of it.
all_members : (ss : List Text) → All (λ s. Mem s ss) ss
all_members [] = tt
all_members (s ∷ ss) = (mem-cons_self, All-mono (λ t m. mem-cons_of_mem s m) ss (all_members ss))

unique-Pairwise : (ss : List Text) → Pairwise DifferentText (unique ss)
unfolding unique
unique-Pairwise [] = tt
unique-Pairwise (s ∷ ss) = (
  All-mono (λ t h. ground arith) (filter (λ t. not (text_eq s t)) (unique ss))
      (filter-passed (λ t. not (text_eq s t)) (unique ss)),
  filter-Pairwise (λ t. not (text_eq s t)) (unique ss) (unique-Pairwise ss),
)

mem-unique : (s : Text) (ss : List Text) → Mem s ss → Mem s (unique ss)
unfolding unique
mem-unique s [] m = m
mem-unique s (t ∷ ts) m = elim (Bool-cases (text_eq t s)) [
  | inl e ↦ rw (text_eq_sound t s e) mem-cons_self
  | inr e ↦
      Or.elim Mem-prop (mem-cons.0 m)
        (λ (q : s ≡ t). absurd (false≢true (sym e ∙ rw q (text_eq_refl t))))
        (λ n.
          mem-cons_of_mem t
            (mem-filter_of (λ u. not (text_eq t u)) s (unique ts) (mem-unique s ts n) (ap not e)))
]

-- A supported chain that the setting names.
abbrev pub IsRequested : ChainSettings → Text → Type 0
IsRequested settings s =
    Mem s (parts settings.snapshot_enabled_chains) × (text_in s supported_chains ≡ true)

-- What holds of the enabled chains: there is one, all are supported and have a configuration, none
-- stands twice, every supported name in the setting is among them, they are named in the setting where
-- it names a supported one, and all that are supported where it names none.
pub record IsEnabled (settings : ChainSettings) (chains : List Text) : Type 0 where
  pub nonempty : chains ≢ []
  pub supported : All (λ s. text_in s supported_chains ≡ true) chains
  pub configured : All (λ s. is_some (get_config s (get_chain_configs settings)) ≡ true) chains
  pub different : Pairwise DifferentText chains
  pub requested : (s : Text) → IsRequested settings s → Mem s chains
  pub only_requested : (s : Text) → IsRequested settings s → All (IsRequested settings) chains
  pub by_default : ((s : Text) → ¬ IsRequested settings s) → chains ≡ supported_chains

supported-configured :
    (settings : ChainSettings) (s : Text)
    → text_in s supported_chains ≡ true
    → is_some (get_config s (get_chain_configs settings)) ≡ true
unfolding text_in
supported-configured settings s h = ground arith

or_all-IsEnabled :
    (settings : ChainSettings) (chains : List Text)
    → All (IsRequested settings) chains
    → Pairwise DifferentText chains
    → ((s : Text) → IsRequested settings s → Mem s chains)
    → IsEnabled settings (or_all chains)
unfolding text_in text_eq
or_all-IsEnabled settings [] a d m = record {
  nonempty = λ h. ground arith;
  supported = (refl, (refl, (refl, (refl, (refl, tt)))));
  configured = (refl, (refl, (refl, (refl, (refl, tt)))));
  different = (
    (refl, (refl, (refl, (refl, tt)))),
    ((refl, (refl, (refl, tt))), ((refl, (refl, tt)), ((refl, tt), (tt, tt)))),
  );
  requested = λ s n. absurd (not-mem-nil (m s n));
  only_requested = λ s n. absurd (not-mem-nil (m s n));
  by_default = λ h. refl;
}
or_all-IsEnabled settings (c ∷ cs) a d m = record {
  nonempty = λ h. ground arith;
  supported = All-mono (λ s r. r.1) (c ∷ cs) a;
  configured = All-mono (λ s r. supported-configured settings s r.1) (c ∷ cs) a;
  different = d;
  requested = m;
  only_requested = λ s n. a;
  by_default = λ h. absurd (h c a.0);
}

-- With any settings, there is an enabled chain, the enabled chains are supported, have a
-- configuration each and are different, and every supported name in the setting, which is split at
-- commas and stripped, is one of them. Where the setting has a supported name, every enabled chain is in
-- the setting; where it has none, the enabled chains are all that are supported.
pub get_enabled_chains-IsEnabled :
    (settings : ChainSettings) → IsEnabled settings (get_enabled_chains settings)
unfolding get_enabled_chains
get_enabled_chains-IsEnabled settings =
    let is_supported : Text → Bool = λ chain. text_in chain supported_chains in
    let names = parts settings.snapshot_enabled_chains in
    or_all-IsEnabled settings (filter is_supported (unique names))
      (All-both _ _ _
        (filter-All _ is_supported (unique names) (unique-All _ names (all_members names)))
        (filter-passed is_supported (unique names)))
      (filter-Pairwise is_supported (unique names) (unique-Pairwise names))
      (λ s r. mem-filter_of is_supported s (unique names) (mem-unique s names r.0) r.1)
