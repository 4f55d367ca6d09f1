-- ===== src/Chat/Updates.antt =====
-- quic/handler/message_handler.go, processCachedFileStatusUpdates: the results of uploads that came
-- before their message, which wait in Redis under the client ids of its contents.
use cc_im_server.Prelude.{
  String, Bool, not, ◌&&◌, ◌||◌, Option, none, some, List, [], ◌∷◌, any, ◌==◌, eqb, if◌then◌else◌,
}
use cc_im_server.Prelude.Assoc.{lookup, delete}
use cc_im_server.Chat.Tables.{ContentRow, ClientFileStatusUpdate, Call, Chat, ChatFaults}

pub record ClientContent : Type 0 where
  pub type : String
  pub type_id : String
  pub client_cid : String
  pub content : String

abbrev is_content : String → String → ContentRow → Bool
is_content mid client_cid c = c.mid == mid && c.client_cid == client_cid && eqb c.delete_time 0

-- The update of the first content with the client id, which is found by its own id then.
unfoldable pub fill_content : String → ClientFileStatusUpdate → List ContentRow → List ContentRow
fill_content mid u [] = []
fill_content mid u (c ∷ cs) =
    let rest = fill_content mid u cs in
    if is_content mid u.client_cid c
    then record c { type_id = u.uf_id; content = u.content } ∷ cs
    else c ∷ rest

-- The acknowledgement goes to the client in any case; after an update it is also kept in Redis.
unfoldable pub process_file_status_update :
    ChatFaults → String → ClientFileStatusUpdate → Chat → Chat
process_file_status_update f mid u s =
    let refused : Chat = record s { calls = Call.ack_file_status u.client_cid ∷ s.calls } in
    let filled : Chat = record s {
      contents = fill_content mid u s.contents;
      calls =
          Call.keep_file_ack u.client_cid
          ∷ Call.ack_file_status u.client_cid
          ∷ Call.publish_content_update mid u.client_cid
          ∷ s.calls;
    } in
    if f.content_query || not (any (is_content mid u.client_cid) s.contents) || f.content_update
    then refused
    else filled

unfoldable pub process_found :
    ChatFaults → String → String → Option ClientFileStatusUpdate → Chat → Chat
process_found f mid client_cid none s = s
process_found f mid client_cid (some u) s =
    let done = process_file_status_update f mid u s in
    if f.cached_delete
    then done
    else record done { file_updates = delete client_cid done.file_updates }

unfoldable pub process_cached_file_status_updates :
    ChatFaults → String → List ClientContent → Chat → Chat
process_cached_file_status_updates f mid [] s = s
process_cached_file_status_updates f mid (c ∷ contents) s =
    let found = if f.cached_get then none else lookup c.client_cid s.file_updates in
    let s' = if c.client_cid == "" then s else process_found f mid c.client_cid found s in
    process_cached_file_status_updates f mid contents s'
