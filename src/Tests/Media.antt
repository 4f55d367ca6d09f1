-- ===== src/Tests/Media.antt =====
-- Concrete runs of the theorems on the media server.
use cc_im_server.Prelude.{
  String, false, some, none, ltb, refl, ◌≢◌, List, [], ◌∷◌, ◌≡◌, ◌&&◌, ◌==◌, if◌then◌else◌, arith,
}
use cc_im_server.Media.Frame.{relayed, split_relayed, split-relayed}
use cc_im_server.Prelude.Assoc.{lookup}
use cc_im_server.Media.Sign.{
  JoinRequest, JoinParams, ok, sign_key, consume_and_verify_join_sign, accepted_once,
}
use cc_im_server.Media.Races.{reconnect_lost}
use cc_im_server.Media.Hub.{
  broadcast, MediaClient, new_server, add_client, remove_client, client_of,
}
use cc_im_server.Media.Rooms.{
  writes_to, new_server-IsSeparate, add_client-client_of, remove_client-client_of,
}

split-relayed_example : split_relayed (relayed (97 ∷ []) (1 ∷ 2 ∷ [])) ≡ some (97 ∷ [], 1 ∷ 2 ∷ [])
split-relayed_example = split-relayed (97 ∷ []) (1 ∷ 2 ∷ []) (omega arith)

abbrev ann : MediaClient
ann = record { uid = "ann"; rid = "r"; role = "publisher"; stream = 1 }

add_client-client_of_example :
    client_of (add_client new_server ann) "r" "ann"
    ≡ (if ann.rid == "r" && ann.uid == "ann" then some ann else client_of new_server "r" "ann")
add_client-client_of_example = add_client-client_of new_server ann "r" "ann" new_server-IsSeparate

remove_client-client_of_example :
    client_of (remove_client new_server ann).0 "r" "ann"
    ≡ (if ann.rid == "r" && ann.uid == "ann" then none else client_of new_server "r" "ann")
remove_client-client_of_example =
    remove_client-client_of new_server ann "r" "ann" new_server-IsSeparate

abbrev ann_again : MediaClient
ann_again = record ann { stream = 2 }

reconnect_lost_example :
    writes_to "ann" (
      broadcast
        (λ u. [])
        (remove_client (add_client (add_client new_server ann) ann_again) ann).0
        "r"
        "bob"
        (1 ∷ []))
    ≡ false
reconnect_lost_example =
    reconnect_lost new_server ann ann_again new_server-IsSeparate refl refl (λ u. []) "bob" (1 ∷ [])

abbrev bob : MediaClient
bob = record ann { uid = "bob"; stream = 3 }

abbrev request : JoinRequest
request = record {
  uid = "ann";
  sid = "s";
  rid = "r";
  role = "publisher";
  nonce = "n";
  expire_at = 900;
  sign = "sig";
}

abbrev params : JoinParams
params = record {
  make_media_join_sign = λ uid sid rid role nonce expire_at. "sig";
  parse = λ raw. some request;
}

abbrev sign_keys : List (String × String)
sign_keys = ("media:join:sign:n", "{}") ∷ []

accepted : (consume_and_verify_join_sign params false sign_keys 800 801 request).1 ≡ ok
unfolding consume_and_verify_join_sign sign_key lookup ◌==◌
accepted = refl

accepted_once_example :
    (params.make_media_join_sign "ann" "s" "r" "publisher" "n" 900 ≡ "sig")
    × (ltb 900 800 ≡ false)
    × (ltb 900 801 ≡ false)
    × ((consume_and_verify_join_sign params false
          (consume_and_verify_join_sign params false sign_keys 800 801 request).0
          810
          811
          request).1
        ≢ ok)
accepted_once_example =
    accepted_once params false sign_keys 800 801 request accepted request refl false 810 811
