-- ===== src/Libvirt/Client/Reports/Fields.antt =====
-- The names of the byte counters of a domain: `net.N.rx.bytes`, `net.N.tx.bytes`, `block.N.rd.bytes`
-- and `block.N.wr.bytes`, and that parseStats tells them apart.
use kite_kvm.Libvirt.Client.Reports.{
  StatsField, field_of, is_balloon, is_cpu, is_rd, is_rss, is_rx, is_state, is_tx, is_wr,
}
use kite_kvm.Prelude.Texts.{has_prefix, has_suffix, behind}
use mathlib.Core.Path.{subst}
use kite_kvm.Prelude.{
  Bool, Bool-cases, String, ap, arith, eq_iff, false, inl, inr, refl, str_eq, sym, true, ◌&&◌, ◌∙◌,
  ◌≡◌,
}

-- a text does not end in two texts of which neither ends in the other
has_suffix-exclusive :
    (x y s : String)
    → has_suffix x y ≡ false
    → has_suffix y x ≡ false
    → has_suffix s x ≡ true
    → has_suffix s y ≡ false
unfolding has_suffix
has_suffix-exclusive x y String.[] hx hy h =
    let empty : x ≡ "" = (eq_iff x "").0 h in sym (ap (λ t. has_suffix t y) empty) ∙ hx
has_suffix-exclusive x y (String.◌∷◌ c s) hx hy h = elim (Bool-cases (has_suffix s x)) [
  | inl inside ↦
      let rest = has_suffix-exclusive x y s hx hy inside in
      elim (Bool-cases (str_eq (String.◌∷◌ c s) y)) [
        | inl whole ↦
            let same : String.◌∷◌ c s ≡ y = (eq_iff (String.◌∷◌ c s) y).0 whole in
            let ends : has_suffix y x ≡ true = sym (ap (λ t. has_suffix t x) same) ∙ h in
            cc (ends, hy)
        | inr differs ↦ rw (differs, rest) refl
      ]
  | inr outside ↦
      let same : String.◌∷◌ c s ≡ x = (eq_iff (String.◌∷◌ c s) x).0 (ground (arith, h, outside)) in
      ap (λ t. has_suffix t y) same ∙ hx
]

-- a counter's name, by what stands before and behind the number of its device
abbrev pub is_counter : String → String → String → Bool
is_counter prefix suffix name = has_prefix name prefix && has_suffix name suffix

abbrev pub is_rx_field : StatsField → Bool
is_rx_field is_rx = true
is_rx_field _ = false

abbrev pub is_tx_field : StatsField → Bool
is_tx_field is_tx = true
is_tx_field _ = false

abbrev pub is_rd_field : StatsField → Bool
is_rd_field is_rd = true
is_rd_field _ = false

abbrev pub is_wr_field : StatsField → Bool
is_wr_field is_wr = true
is_wr_field _ = false

-- what holds of the four names that are compared whole, and of every other name
module _ (P : String → StatsField → Type 0) (state : P "state.state" is_state)
    (cpu : P "cpu.time" is_cpu) (balloon : P "balloon.current" is_balloon)
    (rss : P "balloon.rss" is_rss) where
  field_of-cases :
      (name : String)
      → (str_eq name "state.state" ≡ false
          → str_eq name "cpu.time" ≡ false
          → str_eq name "balloon.current" ≡ false
          → str_eq name "balloon.rss" ≡ false
          → P name (field_of name))
      → P name (field_of name)
  unfolding field_of
  field_of-cases name rest = elim (Bool-cases (str_eq name "state.state")) [
    | inl h ↦ subst (λ t. P t (field_of t)) (sym ((eq_iff name "state.state").0 h)) state
    | inr n1 ↦ elim (Bool-cases (str_eq name "cpu.time")) [
      | inl h ↦ subst (λ t. P t (field_of t)) (sym ((eq_iff name "cpu.time").0 h)) cpu
      | inr n2 ↦ elim (Bool-cases (str_eq name "balloon.current")) [
        | inl h ↦ subst (λ t. P t (field_of t)) (sym ((eq_iff name "balloon.current").0 h)) balloon
        | inr n3 ↦ elim (Bool-cases (str_eq name "balloon.rss")) [
          | inl h ↦ subst (λ t. P t (field_of t)) (sym ((eq_iff name "balloon.rss").0 h)) rss
          | inr n4 ↦ rest n1 n2 n3 n4
        ]
      ]
    ]
  ]

pub field_of-rx : (name : String) → is_rx_field (field_of name) ≡ is_counter "net." ".rx.bytes" name
unfolding field_of has_suffix behind
field_of-rx name =
    field_of-cases (λ t f. is_rx_field f ≡ is_counter "net." ".rx.bytes" t) refl refl refl refl name
      λ n1 n2 n3 n4. ground (arith, n1, n2, n3, n4)

pub field_of-tx : (name : String) → is_tx_field (field_of name) ≡ is_counter "net." ".tx.bytes" name
unfolding field_of has_suffix behind
field_of-tx name =
    field_of-cases (λ t f. is_tx_field f ≡ is_counter "net." ".tx.bytes" t) refl refl refl refl name
      λ n1 n2 n3 n4.
        ground (arith, n1, n2, n3, n4, has_suffix-exclusive ".rx.bytes" ".tx.bytes" name refl refl)

pub field_of-rd :
    (name : String) → is_rd_field (field_of name) ≡ is_counter "block." ".rd.bytes" name
unfolding field_of has_suffix behind
field_of-rd name =
    field_of-cases (λ t f. is_rd_field f ≡ is_counter "block." ".rd.bytes" t) refl refl refl refl
      name
      λ n1 n2 n3 n4. ground (
        arith,
        n1,
        n2,
        n3,
        n4,
        has_suffix-exclusive ".rx.bytes" ".rd.bytes" name refl refl,
        has_suffix-exclusive ".tx.bytes" ".rd.bytes" name refl refl,
      )

pub field_of-wr :
    (name : String) → is_wr_field (field_of name) ≡ is_counter "block." ".wr.bytes" name
unfolding field_of has_suffix behind
field_of-wr name =
    field_of-cases (λ t f. is_wr_field f ≡ is_counter "block." ".wr.bytes" t) refl refl refl refl
      name
      λ n1 n2 n3 n4. ground (
        arith,
        n1,
        n2,
        n3,
        n4,
        has_suffix-exclusive ".rx.bytes" ".wr.bytes" name refl refl,
        has_suffix-exclusive ".tx.bytes" ".wr.bytes" name refl refl,
        has_suffix-exclusive ".rd.bytes" ".wr.bytes" name refl refl,
      )
