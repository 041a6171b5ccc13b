-- ===== src/Ui/Chart/Lookup.antt =====
-- Which entries of a chart's configuration are found and drawn (docs/src/components/ui/chart.tsx).
use quickspin.Text.Units.{Text}
use quickspin.Text.{text_eq}
use quickspin.Text.Equality.{text_eq_self, eq_of_text_eq}
use quickspin.Prelude.{
  ◌≡◌, ◌≢◌, refl, sym, ap, subst, ◌⊎◌, inl, inr, true, false, none, some, [], ◌∷◌, arith,
  Bool-cases, Option-cases, In, All,
}
use quickspin.Ui.Chart.{
  Value, string, Entries, entries_of, own_config, empty_config, ItemConfig, ChartConfig,
  Environment, own_field, text_of, config_at, inner_payload, config_label_key, get_payload_config,
}

-- No text stands there.
abbrev pub IsNoText : Value → Type 0
IsNoText v = (t : Text) → v ≢ string t

-- The key that an item names: the text that it has under the caller's key; if it has none, the text that
-- its payload has under it; if that has none either, the caller's key.
abbrev pub Names : Entries → Text → Text → Type 0
Names payload key k =
    (own_field key payload ≡ string k)
    ⊎ (IsNoText (own_field key payload)
        × (((inner : Entries) × (inner_payload payload ≡ some inner)
              × (own_field key inner ≡ string k))
            ⊎ (((inner : Entries)
                  → inner_payload payload ≡ some inner
                  → IsNoText (own_field key inner))
                × (k ≡ key))))

string_of_text_of : (v : Value) (t : Text) → text_of v ≡ some t → v ≡ string t
string_of_text_of v t h = ground arith

IsNoText-of : (v : Value) → text_of v ≡ none → IsNoText v
IsNoText-of v h t e = cc (ap text_of e)

config_label_key-Names :
    (payload : Entries) (key : Text) → Names payload key (config_label_key payload key)
unfolding config_label_key
config_label_key-Names payload key = elim (Option-cases (text_of (own_field key payload))) [
  | inr (t, e) ↦ rw (e, config_label_key) (inl (string_of_text_of _ t e))
  | inl e ↦ inr (
    IsNoText-of _ e,
    elim (Option-cases (inner_payload payload)) [
      | inl f ↦ rw (e, config_label_key) (rw (f, config_label_key) (inr (λ inner g. cc, refl)))
      | inr (inner, f) ↦ elim (Option-cases (text_of (own_field key inner))) [
        | inl g ↦
            rw (e, config_label_key)
              (rw (f, config_label_key)
                (rw (g, config_label_key)
                  (inr (
                    λ other h.
                        let same : inner ≡ other = ground arith in
                        subst (λ x. IsNoText (own_field key x)) same (IsNoText-of _ g),
                    refl,
                  ))))
        | inr (t, g) ↦
            rw (e, config_label_key)
              (rw (f, config_label_key)
                (rw (g, config_label_key) (inl (inner, refl, string_of_text_of _ t g))))
      ]
    ],
  )
]

ne_of_text_eq : (s t : Text) → text_eq s t ≡ false → s ≢ t
ne_of_text_eq s t h e = cc (h, subst (λ v. text_eq s v ≡ true) e (text_eq_self s))

own_config_cases :
    {M : Type 0} (key : Text) (config : ChartConfig M)
    → ((item : ItemConfig M) × (own_config key config ≡ some item) × In (key, item) config)
      ⊎ ((own_config key config ≡ none) × All (λ e. e.0 ≢ key) config)
own_config_cases key [] = inr (refl, tt)
own_config_cases key ((k, x) ∷ config) = elim (Bool-cases (text_eq k key)) [
  | inl e ↦ inl (x, rw e refl, inl (ap (λ n. (n, x)) (sym (eq_of_text_eq k key e))))
  | inr e ↦ elim (own_config_cases key config) [
    | inl (item, at, i) ↦ inl (item, rw e at, inr i)
    | inr (at, un) ↦ inr (rw e at, (ne_of_text_eq k key e, un))
  ]
]

module _ {M : Type 0} (env : Environment) (config : ChartConfig M) where
  abbrev IsUnlisted : Text → Type 0
  IsUnlisted key = All (λ e. e.0 ≢ key) config

  -- An entry of the configuration, or what an object inherits under a name that has no entry.
  abbrev pub Gives : Text → ItemConfig M → Type 0
  Gives key item =
      In (key, item) config ⊎ (IsUnlisted key × (env.inherited key ≡ true) × (item ≡ empty_config))

  abbrev pub IsAbsent : Text → Type 0
  IsAbsent key = IsUnlisted key × (env.inherited key ≡ false)

  config_at_cases :
      (key : Text)
      → ((item : ItemConfig M) × (config_at env config key ≡ some item) × Gives key item)
        ⊎ ((config_at env config key ≡ none) × IsAbsent key)
  unfolding config_at
  config_at_cases key = elim (own_config_cases key config) [
    | inl (item, e, i) ↦ inl (item, rw (e, config_at) refl, inl i)
    | inr (e, un) ↦ elim (Bool-cases (env.inherited key)) [
      | inl k ↦ inl (empty_config, rw (e, config_at) (rw k refl), inr (un, k, refl))
      | inr k ↦ inr (rw (e, config_at) (rw k refl), (un, k))
    ]
  ]

  -- For a value with entries, of the key that it names and the caller's key the first that the
  -- configuration has decides: an entry under the named key is found; if there is none under it, an
  -- entry under the caller's key; if there is none either, nothing. A name that every object inherits
  -- counts as a key, with an empty entry. For other values nothing is found.
  pub get_payload_config_lem :
      (value : Value) (key : Text)
      → ((entries_of value ≡ none) × (get_payload_config env config value key ≡ none))
        ⊎ ((payload : Entries) × (k : Text) × (entries_of value ≡ some payload)
            × Names payload key k
            × (((item : ItemConfig M) × (get_payload_config env config value key ≡ some item)
                  × Gives k item)
                ⊎ (IsAbsent k
                    × (((item : ItemConfig M) × (get_payload_config env config value key
                            ≡ some item)
                          × Gives key item)
                        ⊎ (IsAbsent key × (get_payload_config env config value key ≡ none))))))
  unfolding get_payload_config
  get_payload_config_lem value key = elim (Option-cases (entries_of value)) [
    | inl e ↦ inl (e, rw (e, get_payload_config) refl)
    | inr (payload, e) ↦ inr (
      payload,
      config_label_key payload key,
      e,
      config_label_key-Names payload key,
      elim (config_at_cases (config_label_key payload key)) [
        | inl (item, at, gives) ↦
            inl (item, rw (e, get_payload_config) (rw (at, get_payload_config) refl), gives)
        | inr (at, absent) ↦ inr (
          absent,
          elim (config_at_cases key) [
            | inl (item, at', gives) ↦
                inl
                  (item, rw (e, get_payload_config) (rw (at, at', get_payload_config) refl), gives)
            | inr (at', absent') ↦
                inr (absent', rw (e, get_payload_config) (rw (at, at', get_payload_config) refl))
          ],
        )
      ],
    )
  ]
