-- ===== src/Chat/Refilled.antt =====
-- quic/handler/message_handler.go, processCachedFileStatusUpdates: what the cached results change.
use cc_im_server.Prelude.{
  String, Bool, true, false, ◌&&◌, ◌||◌, Option, none, some, List, [], ◌∷◌, ◌++◌, map,
  if◌then◌else◌, ◌==◌, eqb, ◌≡◌, refl, ap, ◌∙◌, arith, ==_iff, ==_refl, Bool-cases, inl, inr,
}
use cc_im_server.Prelude.Assoc.{lookup}
use cc_im_server.Chat.Tables.{ContentRow, ClientFileStatusUpdate, Chat, ChatFaults}
use cc_im_server.Chat.Updates.{
  ClientContent, fill_content, process_file_status_update, process_found,
  process_cached_file_status_updates,
}

-- The same content but for its text and the id of its file; and only of this message.
abbrev is_refill : String → ContentRow → ContentRow → Bool
is_refill mid c c' =
    c'.mid == c.mid
    && c'.client_cid == c.client_cid
    && c'.type == c.type
    && eqb c'.delete_time c.delete_time
    && (c.mid == mid || (c'.type_id == c.type_id && c'.content == c.content))

-- No content has come or gone, those of other messages are as they were, and in those of this message
-- only the text and the id of the file may differ.
unfoldable pub is_refilled : String → List ContentRow → List ContentRow → Bool
is_refilled mid [] [] = true
is_refilled mid (c ∷ cs) (c' ∷ cs') = is_refill mid c c' && is_refilled mid cs cs'
is_refilled mid cs cs' = false

pub is_refilled-same : (mid : String) (cs : List ContentRow) → is_refilled mid cs cs ≡ true
unfolding is_refilled
is_refilled-same mid [] = refl
is_refilled-same mid (c ∷ cs) = ground (
  arith,
  is_refilled-same mid cs,
  ==_refl c.mid,
  ==_refl c.client_cid,
  ==_refl c.type,
  ==_refl c.type_id,
  ==_refl c.content,
)

refill-twice :
    (mid : String) (c d e : ContentRow)
    → is_refill mid c d ≡ true
    → is_refill mid d e ≡ true
    → is_refill mid c e ≡ true
refill-twice mid c d e h k = ground (
  arith,
  h,
  k,
  ==_iff d.mid c.mid,
  ==_iff d.client_cid c.client_cid,
  ==_iff d.type c.type,
  ==_iff d.type_id c.type_id,
  ==_iff d.content c.content,
)

pub refilled-twice :
    (mid : String) (cs ds es : List ContentRow)
    → is_refilled mid cs ds ≡ true
    → is_refilled mid ds es ≡ true
    → is_refilled mid cs es ≡ true
unfolding is_refilled
refilled-twice mid [] [] [] h k = refl
refilled-twice mid [] [] (e ∷ es) h k = cc
refilled-twice mid [] (d ∷ ds) es h k = cc
refilled-twice mid (c ∷ cs) [] es h k = cc
refilled-twice mid (c ∷ cs) (d ∷ ds) [] h k = cc
refilled-twice mid (c ∷ cs) (d ∷ ds) (e ∷ es) h k =
    ground (arith, h, k, refilled-twice mid cs ds es, refill-twice mid c d e)

fill-refilled :
    (mid : String) (u : ClientFileStatusUpdate) (cs : List ContentRow)
    → is_refilled mid cs (fill_content mid u cs) ≡ true
unfolding is_refilled fill_content
fill-refilled mid u [] = refl
fill-refilled mid u (c ∷ cs) = ground (
  arith,
  fill-refilled mid u cs,
  is_refilled-same mid cs,
  ==_refl c.mid,
  ==_refl c.client_cid,
  ==_refl c.type,
  ==_refl c.type_id,
  ==_refl c.content,
)

-- What the cached results leave of a state.
abbrev pub IsFilled : String → Chat → Chat → Type 0
IsFilled mid s s' =
    (s'.rows ≡ s.rows) × (s'.seqs ≡ s.seqs) × (is_refilled mid s.contents s'.contents ≡ true)

one_fills :
    (f : ChatFaults) (mid client_cid : String) (o : Option ClientFileStatusUpdate) (s : Chat)
    → IsFilled mid s (process_found f mid client_cid o s)
unfolding process_found process_file_status_update
one_fills f mid k none s = (refl, refl, is_refilled-same mid s.contents)
one_fills f mid k (some u) s = (
  ground arith,
  ground arith,
  ground (arith, is_refilled-same mid s.contents, fill-refilled mid u s.contents),
)

pub process_fills :
    (f : ChatFaults) (mid : String) (contents : List ClientContent) (s : Chat)
    → IsFilled mid s (process_cached_file_status_updates f mid contents s)
unfolding process_cached_file_status_updates
process_fills f mid [] s = (refl, refl, is_refilled-same mid s.contents)
process_fills f mid (c ∷ contents) s =
    let found = if f.cached_get then none else lookup c.client_cid s.file_updates in
    let s' = if c.client_cid == "" then s else process_found f mid c.client_cid found s in
    let one : IsFilled mid s s' = elim (Bool-cases (c.client_cid == "")) [
      | inl e ↦ rw e (refl, refl, is_refilled-same mid s.contents)
      | inr e ↦ rw e (one_fills f mid c.client_cid found s)
    ] in
    let (rows, seqs, more) = process_fills f mid contents s' in
    (
      rows ∙ one.0,
      seqs ∙ one.1,
      refilled-twice mid s.contents s'.contents
          (process_cached_file_status_updates f mid contents s').contents one.2 more,
    )

pub refilled-split :
    (mid : String) (old cs all : List ContentRow)
    → is_refilled mid (old ++ cs) all ≡ true
    → (old' : List ContentRow) × (cs' : List ContentRow) × (all ≡ old' ++ cs')
      × (is_refilled mid old old' ≡ true)
      × (is_refilled mid cs cs' ≡ true)
unfolding is_refilled
refilled-split mid [] cs all h = ([], all, refl, refl, h)
refilled-split mid (c ∷ old) cs [] h = cc
refilled-split mid (c ∷ old) cs (d ∷ all) h =
    let (old', cs', is, one, two) = refilled-split mid old cs all (ground (arith, h)) in
    (d ∷ old', cs', ap (λ ds. d ∷ ds) is, ground (arith, h, one), two)

-- Whether all contents are of this message.
unfoldable pub all_of : String → List ContentRow → Bool
all_of mid [] = true
all_of mid (c ∷ cs) = c.mid == mid && all_of mid cs

abbrev pub client_cids : List ContentRow → List String
client_cids cs = map (λ c. c.client_cid) cs

pub refilled-all_of :
    (mid : String) (cs cs' : List ContentRow)
    → is_refilled mid cs cs' ≡ true
    → (all_of mid cs' ≡ all_of mid cs) × (client_cids cs' ≡ client_cids cs)
unfolding is_refilled all_of
refilled-all_of mid [] [] h = (refl, refl)
refilled-all_of mid [] (d ∷ ds) h = cc
refilled-all_of mid (c ∷ cs) [] h = cc
refilled-all_of mid (c ∷ cs) (d ∷ ds) h =
    let (one, two) = refilled-all_of mid cs ds (ground (arith, h)) in
    (
      ground (arith, h, one, ==_iff d.mid c.mid),
      ground (arith, h, two, ==_iff d.client_cid c.client_cid),
    )
