-- ===== src/Call/Races.antt =====
-- http/handler/media/stream.go, HangupCall: two hang-ups that meet. Nothing is locked between the
-- read of the state of a call and its write.
use cc_im_server.Prelude.{String}
use cc_im_server.Call.Tables.{CallInvite, Calls, Caller, state_of}
use cc_im_server.Call.Members.{hangup_state}

-- The second writes after the first, but both have read the state before.
unfoldable pub both_hang_up : Caller → Caller → String → CallInvite → Calls → Calls
both_hang_up first second k i c =
    let written = (hangup_state first k i (state_of first c i k) c).0 in
    (hangup_state second k i (state_of second c i k) written).0
