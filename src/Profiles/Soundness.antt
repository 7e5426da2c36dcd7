-- ===== src/Profiles/Soundness.antt =====
-- Every operation on the profiles keeps the invariant (internal/store/profile_lifecycle.go,
-- internal/store/profiles.go).
use codex_folio.Base.{
  done, checked, done-injective, ◌≡◌, refl, sym, subst, ◌∙◌, inl, inr, Bool, true, false, String,
  List, [], ◌∷◌, Option, none, some, ◌==◌, string_eq, is_some, is_none, arith, Bool-cases,
}
use codex_folio.Launch.Records.{Launch}
use codex_folio.Profiles.Records.{
  Quarantine, Identity, Tables, insert_quarantine, delete_rows, Environment, Item, RemovalRecord,
  find_identity,
}
use codex_folio.Profiles.Removal.{
  has_live, is_text, put_quarantine, blank, blank_all, other_launches, delete_profile_rows,
  quarantine_row, take_out,
}
use codex_folio.Profiles.Invariant.{IsSound, has_profile, distinct}

taken_out-other :
    (id key : String) (table : String → Option Quarantine)
    → is_some (put_quarantine id none table key) ≡ true
    → ((key == id) ≡ false) × (is_some (table key) ≡ true)
unfolding put_quarantine
taken_out-other id key table h = elim (Bool-cases (key == id)) [
  | inl same ↦ cc (rw same at h)
  | inr other ↦ (other, rw other at h)
]

-- A profile that leaves the quarantine.
pub released-IsSound :
    (id : String) (selected : Option String) (t : Tables)
    → IsSound t
    → ((key : String)
        → (key == id) ≡ false
        → is_text key t.selected ≡ false
        → is_text key selected ≡ false)
    → IsSound (record t { selected = selected; quarantine = put_quarantine id none t.quarantine })
released-IsSound id selected t s keeps = record {
  ids = s.ids;
  idle = λ key h. s.idle key (taken_out-other id key t.quarantine h).1;
  unselected = λ key h.
      let (other, there) = taken_out-other id key t.quarantine h in
      keeps key other (s.unselected key there);
}

has_live-other :
    (x id : String) (ls : List Launch)
    → has_live x ls ≡ false
    → has_live x (other_launches id ls) ≡ false
unfolding has_live other_launches
has_live-other x id [] h = refl
has_live-other x id (l ∷ ls) h =
    let ih = has_live-other x id ls (ground (arith, h)) in ground (arith, h, ih)

blank-id : (id : String) (p : Identity) → (blank id p).profile_id ≡ p.profile_id
unfolding blank
blank-id id p = elim (Bool-cases (p.profile_id == id)) [
  | inl same ↦ rw same refl
  | inr other ↦ rw other refl
]

has_profile-blank :
    (id x : String) (ps : List Identity) → has_profile x (blank_all id ps) ≡ has_profile x ps
unfolding has_profile blank_all
has_profile-blank id x [] = refl
has_profile-blank id x (p ∷ ps) = rw (blank-id id p, has_profile-blank id x ps) refl

distinct-blank : (id : String) (ps : List Identity) → distinct (blank_all id ps) ≡ distinct ps
unfolding distinct blank_all
distinct-blank id [] = refl
distinct-blank id (p ∷ ps) =
    rw (blank-id id p, has_profile-blank id p.profile_id ps, distinct-blank id ps) refl

pub delete_profile_rows-IsSound :
    (id : String) (t : Tables) → IsSound t → IsSound (delete_profile_rows id t)
unfolding delete_profile_rows
delete_profile_rows-IsSound id t s = record {
  ids = distinct-blank id t.profiles ∙ s.ids;
  idle = λ key h.
      has_live-other key id t.launches (s.idle key (taken_out-other id key t.quarantine h).1);
  unselected = λ key h.
      let free = s.unselected key (taken_out-other id key t.quarantine h).1 in
      elim (Bool-cases (is_text id t.selected)) [ inl hit ↦ rw hit refl | inr miss ↦ rw miss free ];
}

-- A profile that is idle and not selected goes into quarantine.
set_aside-IsSound :
    (id : String) (q : Quarantine) (t : Tables)
    → IsSound t
    → has_live id t.launches ≡ false
    → is_text id t.selected ≡ false
    → IsSound (record t { quarantine = put_quarantine id (some q) t.quarantine })
unfolding put_quarantine
set_aside-IsSound id q t s quiet free = record {
  ids = s.ids;
  idle = λ key h. elim (Bool-cases (key == id)) [
    | inl same ↦
        subst (λ k. has_live k t.launches ≡ false) (sym ((string_eq.is_same_iff key id).0 same))
          quiet
    | inr other ↦ s.idle key (rw other at h)
  ];
  unselected = λ key h. elim (Bool-cases (key == id)) [
    | inl same ↦
        subst (λ k. is_text k t.selected ≡ false) (sym ((string_eq.is_same_iff key id).0 same)) free
    | inr other ↦ s.unselected key (rw other at h)
  ];
}

-- A profile that is not in quarantine is selected.
pub selected-IsSound :
    (p : Identity) (t : Tables)
    → IsSound t
    → is_none (t.quarantine p.profile_id) ≡ true
    → IsSound (record t { selected = some p.profile_id })
selected-IsSound p t s active = record {
  ids = s.ids;
  idle = s.idle;
  unselected = λ key h. elim (Bool-cases (p.profile_id == key)) [
    | inl same ↦
        let here : is_none (t.quarantine key) ≡ true =
          subst (λ k. is_none (t.quarantine k) ≡ true)
            ((string_eq.is_same_iff p.profile_id key).0 same) active in
        ground (arith, here, h)
    | inr other ↦ other
  ];
}

pub take_out-IsSound :
    (env : Environment) (item : Item) (was : Bool) (t : Tables) (taken : RemovalRecord × Tables)
    → IsSound t
    → has_live item.profile_id t.launches ≡ false
    → is_text item.profile_id t.selected ≡ false
    → take_out env item was t ≡ done taken
    → IsSound taken.1
unfolding take_out
take_out-IsSound env item was t taken s quiet free h =
    elim (Bool-cases (item.ownership == "referenced")) [
      | inl referenced ↦
          let (_, h1) = checked (env.works delete_rows) _ _ (rw referenced at h) in
          subst (λ y. IsSound y.1) (done-injective h1)
            (delete_profile_rows-IsSound item.profile_id t s)
      | inr other ↦ elim (Bool-cases (item.ownership == "managed")) [
        | inl managed ↦
            let (_, h1) = checked (env.works insert_quarantine) _ _ (rw (other, managed) at h) in
            let (_, h2) = checked (is_none (t.quarantine item.profile_id)) _ _ h1 in
            let (_, h3) =
              checked (is_some (find_identity (λ p. p.profile_id == item.profile_id) t.profiles)) _
                _ h2 in
            subst (λ y. IsSound y.1) (done-injective h3)
              (set_aside-IsSound item.profile_id (quarantine_row env was) t s quiet free)
        | inr neither ↦ cc (rw (other, neither) at h)
      ]
    ]
