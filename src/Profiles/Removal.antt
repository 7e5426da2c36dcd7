-- ===== src/Profiles/Removal.antt =====
-- internal/store/profile_lifecycle.go: the statements that move a profile into quarantine and out of
-- it. internal/store/profiles.go: SelectProfile. A transaction that fails leaves the tables alone.
use codex_folio.Base.{
  done, fails, ◌>>=◌, require, require_some, ◌+◌, Bool, true, false, ◌&&◌, ◌||◌, not, String, List,
  [], ◌∷◌, Option, none, some, if◌then◌else◌, ◌==◌, ◌!=◌, string_eq, is_some, is_none, is_zero,
  before, exists_in,
}
use codex_folio.Launch.Records.{Launch, is_live, is_running}
use codex_folio.Launch.Prepare.{validate_alias}
use codex_folio.Profiles.Records.{
  prepared, quarantined, Quarantine, Identity, Tables, alias_invalid, profile_not_found,
  removal_blocked, replacement_required, not_selectable, home_invalid, quarantine_invalid,
  quarantine_expired, read_failed, write_failed, Outcome, begin, commit, read_launches,
  read_selected, read_replacement, update_selected, insert_quarantine, delete_quarantine,
  delete_rows, update_quarantine, read_quarantine, read_alias, Environment, deregistered,
  to_quarantine, Item, RemovalRecord, quarantine_period, find_identity, is_active, get_profile,
  get_quarantined_profile,
}

-- Has the profile a pending or a running launch?
unfoldable pub is_live_of : String → Launch → Bool
is_live_of id l = l.profile_id == id && is_live l.state

unfoldable pub has_live : String → List Launch → Bool
unfolding is_live_of
has_live id [] = false
has_live id (l ∷ ls) = is_live_of id l || has_live id ls

abbrev pub is_text : String → Option String → Bool
is_text id none = false
is_text id (some s) = s == id

unfoldable pub put_quarantine :
    String → Option Quarantine → (String → Option Quarantine) → String → Option Quarantine
put_quarantine id q table key = if key == id then q else table key

-- The identity profile stays, without what it says of a person.
unfoldable pub blank : String → Identity → Identity
blank id p =
    if p.profile_id == id
    then record p {
      alias = none;
      is_ready = false;
      home_id = none;
      ownership = none;
      has_ciphertext = false;
      home = none;
    }
    else p

unfoldable pub blank_all : String → List Identity → List Identity
unfolding blank
blank_all id [] = []
blank_all id (p ∷ ps) = blank id p ∷ blank_all id ps

unfoldable pub other_launches : String → List Launch → List Launch
other_launches id [] = []
other_launches id (l ∷ ls) =
    if l.profile_id == id then other_launches id ls else l ∷ other_launches id ls

unfoldable pub delete_profile_rows : String → Tables → Tables
unfolding put_quarantine blank_all other_launches
delete_profile_rows id t = record t {
  profiles = blank_all id t.profiles;
  launches = other_launches id t.launches;
  selected = if is_text id t.selected then none else t.selected;
  quarantine = put_quarantine id none t.quarantine;
}

-- Another profile takes the place of the selected one.
unfoldable pub reselect : Environment → String → String → Item → Tables → Outcome Tables
reselect env alias replacement item t =
    if is_text item.profile_id t.selected
    then (require (validate_alias env.texts replacement && not (env.equal_fold alias replacement))
          replacement_required
        >>= λ _. require (env.works read_replacement) replacement_required >>= λ _.
            require_some (find_identity (is_active env replacement t) t.profiles)
              replacement_required
            >>= λ p. require p.is_ready replacement_required >>= λ _.
                require (env.works update_selected) write_failed >>= λ _.
                done (record t { selected = some p.profile_id }))
    else done t

unfoldable pub quarantine_row : Environment → Bool → Quarantine
quarantine_row env was_selected = record {
  state = prepared;
  was_selected = was_selected;
  quarantined_at = env.texts.now;
  purge_after = env.texts.now + quarantine_period;
}

-- A referenced home's profile is deleted; a managed one's goes into quarantine.
unfoldable pub take_out : Environment → Item → Bool → Tables → Outcome (RemovalRecord × Tables)
unfolding delete_profile_rows put_quarantine quarantine_row find_identity
take_out env item was_selected t =
    if item.ownership == "referenced"
    then (require (env.works delete_rows) write_failed >>= λ _. done (
      record {
        item = item;
        action = deregistered;
        state = none;
        quarantined_at = 0;
        purge_after = 0;
      },
      delete_profile_rows item.profile_id t,
    ))
    else if item.ownership == "managed"
    then (require (env.works insert_quarantine) write_failed >>= λ _.
        require (is_none (t.quarantine item.profile_id)) write_failed >>= λ _.
        require (is_some (find_identity (λ p. p.profile_id == item.profile_id) t.profiles))
          write_failed
        >>= λ _. done (
          record {
            item = item;
            action = to_quarantine;
            state = some prepared;
            quarantined_at = env.texts.now;
            purge_after = env.texts.now + quarantine_period;
          },
          record t {
            quarantine =
                put_quarantine item.profile_id (some (quarantine_row env was_selected))
                  t.quarantine;
          },
        ))
    else fails home_invalid

-- The transaction of BeginProfileRemoval. The item was read before it.
unfoldable pub remove_item :
    Environment → String → String → Item → Tables → Outcome (RemovalRecord × Tables)
unfolding reselect take_out has_live
remove_item env alias replacement item t = do
  _ ← require (not (is_zero env.texts.now)) write_failed
  _ ← require (env.works begin) write_failed
  _ ← require (env.works read_launches) read_failed
  _ ← require (not (has_live item.profile_id t.launches)) removal_blocked
  _ ← require (env.works read_selected) read_failed
  t1 ← reselect env alias replacement item t
  taken ← take_out env item (is_text item.profile_id t.selected) t1
  _ ← require (env.works commit) write_failed
  done taken

-- BeginProfileRemoval after the look into the quarantine: a removal that was begun is returned.
unfoldable pub begin_or_continue :
    Environment
    → String
    → String
    → Tables
    → Outcome RemovalRecord
    → Outcome (RemovalRecord × Tables)
unfolding remove_item
begin_or_continue env alias replacement t (done existing) = done (existing, t)
begin_or_continue env alias replacement t (fails profile_not_found) = do
  item ← get_profile env alias t
  remove_item env alias replacement item t
begin_or_continue env alias replacement t (fails e) = fails e

unfoldable pub begin_profile_removal :
    Environment → String → String → Tables → Outcome (RemovalRecord × Tables)
unfolding begin_or_continue
begin_profile_removal env alias replacement t = do
  _ ← require (validate_alias env.texts alias) alias_invalid
  begin_or_continue env alias replacement t (get_quarantined_profile env alias t)

abbrev pub is_prepared : Option Quarantine → Bool
is_prepared none = false
is_prepared (some q) = elim q.state [ prepared ↦ true | quarantined ↦ false ]

abbrev pub find_prepared : Option Quarantine → Option Quarantine
find_prepared q = if is_prepared q then q else none

abbrev pub find_ready : Option Quarantine → Option Quarantine
find_ready q = if is_prepared q then none else q

unfoldable pub complete_profile_quarantine : Environment → String → Tables → Outcome Tables
unfolding put_quarantine
complete_profile_quarantine env id t = do
  _ ← require (env.works update_quarantine) write_failed
  q ← require_some (find_prepared (t.quarantine id)) quarantine_invalid
  done (record t {
    quarantine = put_quarantine id (some (record q { state = quarantined })) t.quarantine;
  })

unfoldable pub cancel_profile_removal : Environment → String → Tables → Outcome Tables
unfolding put_quarantine
cancel_profile_removal env id t = do
  _ ← require (env.works begin) write_failed
  _ ← require (env.works read_quarantine) quarantine_invalid
  q ← require_some (find_prepared (t.quarantine id)) quarantine_invalid
  _ ← require (not q.was_selected || env.works update_selected) write_failed
  _ ← require (env.works delete_quarantine) write_failed
  _ ← require (env.works commit) write_failed
  done (record t {
    selected = if q.was_selected && is_some t.selected then some id else t.selected;
    quarantine = put_quarantine id none t.quarantine;
  })

unfoldable pub restore_profile : Environment → String → Tables → Outcome Tables
unfolding put_quarantine
restore_profile env id t = do
  _ ← require (env.works read_quarantine) quarantine_invalid
  q ← require_some (find_ready (t.quarantine id)) quarantine_invalid
  _ ← require (before env.texts.now q.purge_after) quarantine_expired
  _ ← require (env.works delete_quarantine) write_failed
  done (record t { quarantine = put_quarantine id none t.quarantine })

unfoldable pub purge_profile : Environment → String → Tables → Outcome Tables
unfolding delete_profile_rows
purge_profile env id t = do
  _ ← require (env.works begin) write_failed
  _ ← require (env.works read_quarantine) quarantine_invalid
  _ ← require_some (find_ready (t.quarantine id)) quarantine_invalid
  _ ← require (env.works delete_rows) write_failed
  _ ← require (env.works commit) write_failed
  done (delete_profile_rows id t)

-- The transaction of SelectProfile, and whether it warns of running launches of other profiles. The
-- profile is read again after it.
unfoldable pub commit_selection : Environment → String → Tables → Outcome (Bool × Tables)
unfolding find_identity is_active
commit_selection env alias t = do
  _ ← require (validate_alias env.texts alias) alias_invalid
  _ ← require (env.works begin) write_failed
  _ ← require (env.works read_alias) read_failed
  p ← require_some (find_identity (is_active env alias t) t.profiles) not_selectable
  _ ← require p.is_ready not_selectable
  _ ← require (env.works update_selected) write_failed
  _ ← require (env.works read_launches) read_failed
  _ ← require (env.works commit) write_failed
  done (
    exists_in (λ l. is_running l.state && l.profile_id != p.profile_id) t.launches,
    record t { selected = some p.profile_id },
  )
