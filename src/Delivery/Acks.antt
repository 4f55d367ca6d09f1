-- ===== src/Delivery/Acks.antt =====
-- notifycoord/room.go: the users returned and the acknowledgement rows written agree.
use cc_im_server.Prelude.{
  String, Bool, true, ◌&&◌, Option, none, some, List, [], ◌∷◌, ◌++◌, map, elem, is_empty, ◌≡◌, ◌≢◌,
  refl, sym, ap, ◌∙◌, arith, ==_of_ne, Bool-cases, Option-cases, inl, inr,
}
use mathlib.Core.List.{append-nil}
use cc_im_server.Delivery.Store.{
  Store, Faults, RoomMessage, get_room_message_by_mid, get_room_user_ids_cache,
  set_room_user_ids_cache, get_uids_who_blocked_room, get_uids_who_blocked_user_in_room,
}
use cc_im_server.Delivery.Recipients.{recipients_of, is_wanted, elem-recipients_of}
use cc_im_server.Delivery.Prepare.{
  failed, prepared, members_of, commit_acks, notify_members, prepare_room_message_notify, ack_of,
  parse_and_create_mentions, create_room_message_mentions,
}

-- A store that differs from `s` in the member cache only.
abbrev pub with_cache : Store → List (String × List String) → Store
with_cache s c = record s { user_ids_cache = c }

abbrev pub KeepsTables : Store → Store → Type 0
KeepsTables s t = t ≡ with_cache s t.user_ids_cache

set_cache-KeepsTables :
    (f : Faults) (s : Store) (rid : String) → KeepsTables s (set_room_user_ids_cache f s rid)
unfolding set_room_user_ids_cache
set_cache-KeepsTables f s rid = ground arith

pub get_cache-KeepsTables :
    (b : Bool) (f : Faults) (s : Store) (rid : String)
    → KeepsTables s (get_room_user_ids_cache b f s rid).0
unfolding get_room_user_ids_cache
get_cache-KeepsTables b f s rid = ground (arith, set_cache-KeepsTables f s rid)

pub members_of-KeepsTables :
    (f : Faults) (s : Store) (rid : String) → KeepsTables s (members_of f s rid).0
unfolding members_of
members_of-KeepsTables f s rid =
    let s1 = (get_room_user_ids_cache f.cache_get f s rid).0 in
    let s2 = set_room_user_ids_cache f s1 rid in
    ground (
      arith,
      get_cache-KeepsTables f.cache_get f s rid,
      set_cache-KeepsTables f s1 rid,
      get_cache-KeepsTables f.cache_get_again f s2 rid,
    )

mentions-acks :
    (f : Faults) (s : Store) (rcm : RoomMessage) → (parse_and_create_mentions f s rcm).acks ≡ s.acks
unfolding parse_and_create_mentions create_room_message_mentions
mentions-acks f s rcm = ground (arith, get_cache-KeepsTables f.cache_get_mentions f s rcm.rid)

is_empty_nil : (xs : List String) → is_empty xs ≡ true → xs ≡ []
is_empty_nil [] h = refl
is_empty_nil (x ∷ xs) h = cc

module _ (f : Faults) (rcm : RoomMessage) where
  none_added : (t : Store) (us : List String) → us ≡ [] → t.acks ≡ t.acks ++ map (ack_of f t rcm) us
  none_added t us e = sym (append-nil t.acks) ∙ ap (λ l. t.acks ++ map (ack_of f t rcm) l) (sym e)

  -- The store after a commit: the rows are there exactly if the users are returned.
  commit_acks-acks :
      (s : Store) (us rs : List String)
      → (commit_acks f s rcm rs).1 ≡ prepared us
      → (us ≡ rs) × ((commit_acks f s rcm rs).0.acks ≡ s.acks ++ map (ack_of f s rcm) us)
  unfolding commit_acks
  commit_acks-acks s us rs h = elim (Bool-cases (is_empty rs)) [
    | inl e ↦
        let nil = is_empty_nil rs e in
        let same : us ≡ [] = ground (arith, e, h) in
        (same ∙ sym nil, ground (arith, e) ∙ none_added s us same)
    | inr e ↦
        let same : us ≡ rs = ground (arith, e, h) in
        let s' : Store = record s { acks = s.acks ++ map (ack_of f s rcm) rs } in
        (
          same,
          ground (arith, e, h, mentions-acks f s' rcm)
              ∙ ap (λ l. s.acks ++ map (ack_of f s rcm) l) (sym same),
        )
  ]

  commit_acks_failed :
      (s : Store) (rs : List String)
      → (commit_acks f s rcm rs).1 ≡ failed
      → (commit_acks f s rcm rs).0 ≡ s
  unfolding commit_acks
  commit_acks_failed s rs h = ground (arith, h)

  members_recipients :
      (include exclude : List String) (t : Store) (ids us : List String)
      → (notify_members f rcm include exclude (t, some ids)).1 ≡ prepared us
      → (uid : String) → elem uid us ≡ (elem uid ids && is_wanted f t rcm include exclude uid)
  unfolding notify_members
  members_recipients include exclude t ids us h uid = elim (Bool-cases (is_empty ids)) [
    | inl e ↦ ground (arith, e, h, is_empty_nil ids e)
    | inr e ↦
        let rs = recipients_of f t rcm ids include exclude in
        ap (elem uid) (commit_acks-acks t us rs (ground (arith, e, h))).0
        ∙ elem-recipients_of f t rcm ids include exclude uid
  ]

  members_acks :
      (include exclude : List String) (t : Store) (ids us : List String)
      → (notify_members f rcm include exclude (t, some ids)).1 ≡ prepared us
      → (notify_members f rcm include exclude (t, some ids)).0.acks
        ≡ t.acks ++ map (ack_of f t rcm) us
  unfolding notify_members
  members_acks include exclude t ids us h = elim (Bool-cases (is_empty ids)) [
    | inl e ↦ ground (arith, e) ∙ none_added t us (ground (arith, e, h))
    | inr e ↦
        let rs = recipients_of f t rcm ids include exclude in
        ground (arith, e, (commit_acks-acks t us rs (ground (arith, e, h))).1)
  ]

is_wanted-with_cache :
    (f : Faults) (s t : Store) (rcm : RoomMessage) (include exclude : List String) (uid : String)
    → KeepsTables s t
    → is_wanted f t rcm include exclude uid ≡ is_wanted f s rcm include exclude uid
unfolding is_wanted get_uids_who_blocked_room get_uids_who_blocked_user_in_room
is_wanted-with_cache f s t rcm include exclude uid k =
    ap (λ x. is_wanted f x rcm include exclude uid) k

acks-with_cache :
    (f : Faults) (s t : Store) (rcm : RoomMessage) (us : List String)
    → KeepsTables s t
    → (t.acks ++ map (ack_of f t rcm) us) ≡ (s.acks ++ map (ack_of f s rcm) us)
unfolding ack_of
acks-with_cache f s t rcm us k = ap (λ (x : Store). x.acks ++ map (ack_of f x rcm) us) k

module _ (f : Faults) (s : Store) (mid : String) (include exclude : List String) (rcm : RoomMessage)
    (named : mid ≢ "") (found : get_room_message_by_mid s mid ≡ some rcm) where
  prepare_step :
      prepare_room_message_notify f s mid include exclude
      ≡ notify_members f rcm include exclude (members_of f s rcm.rid)
  unfolding prepare_room_message_notify
  prepare_step = ground (arith, found, ==_of_ne mid "" named)

  -- When the preparation of a message returns users, they are exactly the members of the room that
  -- are wanted, and the acknowledgement rows added are one for each of them, in order.
  pub prepare_lem :
      (ids us : List String)
      → (members_of f s rcm.rid).1 ≡ some ids
      → (prepare_room_message_notify f s mid include exclude).1 ≡ prepared us
      → ((uid : String) → elem uid us ≡ (elem uid ids && is_wanted f s rcm include exclude uid))
        × ((prepare_room_message_notify f s mid include exclude).0.acks
            ≡ s.acks ++ map (ack_of f s rcm) us)
  prepare_lem ids us m h =
      let t = (members_of f s rcm.rid).0 in
      let keeps = members_of-KeepsTables f s rcm.rid in
      let step : prepare_room_message_notify f s mid include exclude
          ≡ notify_members f rcm include exclude (t, some ids) =
        prepare_step ∙ ap (λ o. notify_members f rcm include exclude (t, o)) m in
      let k = sym (ap (λ p. p.1) step) ∙ h in
      (
        λ uid.
            members_recipients f rcm include exclude t ids us k uid
            ∙ ap (λ b. elem uid ids && b)
                (is_wanted-with_cache f s t rcm include exclude uid keeps),
        ap (λ p. p.0.acks) step
            ∙ members_acks f rcm include exclude t ids us k
            ∙ acks-with_cache f s t rcm us keeps,
      )

notify_failed :
    (f : Faults) (rcm : RoomMessage) (include exclude : List String)
    (m : Store × Option (List String))
    → (notify_members f rcm include exclude m).1 ≡ failed
    → (notify_members f rcm include exclude m).0 ≡ m.0
unfolding notify_members
notify_failed f rcm include exclude (t, none) h = refl
notify_failed f rcm include exclude (t, some ids) h =
    let rs = recipients_of f t rcm ids include exclude in
    ground (arith, h, commit_acks_failed f rcm t rs)

-- A preparation that fails leaves every table as it was: no acknowledgement row and no mention is
-- added, and at most the member cache is refreshed.
pub prepare_failed :
    (f : Faults) (s : Store) (mid : String) (include exclude : List String)
    → (prepare_room_message_notify f s mid include exclude).1 ≡ failed
    → KeepsTables s (prepare_room_message_notify f s mid include exclude).0
unfolding prepare_room_message_notify
prepare_failed f s mid include exclude h = elim (Option-cases (get_room_message_by_mid s mid)) [
  | inl e ↦ ground (arith, e, h)
  | inr (rcm, e) ↦
      let m = members_of f s rcm.rid in
      ground
        (arith, e, h, notify_failed f rcm include exclude m, members_of-KeepsTables f s rcm.rid)
]
