-- ===== src/RpcCenter/Election.antt =====
-- The election of src/rpc_center/rpc_center.cpp: LeaderPredicate and UpdateOCStatus.
pub mod Rounds
pub mod Order
pub mod Inquiry
pub mod Votes
pub mod Elect
use libevrpc.Base.{
  ℕ, ◌+◌, ◌%◌, ◌^◌, Bool, true, false, Option, none, some, List, [], ◌∷◌, ◌++◌, ◌==◌, ltb, leb,
  if◌then◌else◌, length, ◌&&◌, not,
}
use libevrpc.Base.Int.{ℤ, pos, negsuc, is_neg}
use libevrpc.Base.Fault.{Run, ok, fault, ◌>>=◌, deref}
use libevrpc.Base.Bytes.{Bytes, bytes_key, bytes_eq, bytes_lt, until_nul}
use libevrpc.Base.HashMap.{find, put, insert}
use libevrpc.Util.Thread.{start, stop}
use libevrpc.Proto.{
  CenterStatus, looking, following, observing, leading, unkonw, CenterAction, inquiry, proposal,
  leader_confirm, accept, refused, CentersProto, empty_centers,
}
use libevrpc.RpcCenter.{
  OtherCenter, zeroed, LeaderInfos, MessageThread, Effect, sent_center, closed, Others, RpcCenter,
  Env, status_eq, not_positive, add_effects, update_center_status, update_leading_center_infos,
  increase_logical_clock, set_fast_leader_running, broadcast_info,
}

-- LeaderPredicate reads the logical clock and the leader infos only.
unfoldable pub leader_predicate : ℕ → LeaderInfos → CentersProto → CenterAction
leader_predicate logical_clock lc p =
    if ltb p.logical_clock logical_clock
    then refused
    else if p.logical_clock == logical_clock
    then (if ltb lc.lc_start_time p.lc_start_time
        then refused
        else if (p.lc_start_time == lc.lc_start_time)
            && not (bytes_lt lc.leader_center p.leader_center)
        then refused
        else accept)
    else accept

abbrev pub is_accept : CenterAction → Bool
is_accept accept = true
is_accept _ = false

-- strcpy into current_follow_leader_center, an array of 128 bytes.
copy_name : Bytes → Run Bytes
copy_name name = if ltb (length (until_nul name)) 128 then ok (until_nul name) else fault

-- The first block of UpdateOCStatus: what is known of the sender.
abbrev pub new_sender : CentersProto → Bytes → OtherCenter
new_sender p name = record {
  start_time = p.start_time;
  center_status = p.center_status;
  vote_count = 0;
  current_follow_leader_center = name;
}

abbrev pub known_sender : CentersProto → Bytes → OtherCenter → OtherCenter
known_sender p name oc = record oc {
  start_time = p.start_time;
  center_status = p.center_status;
  current_follow_leader_center = name;
}

store_sender : CentersProto → Bytes → Others → Others
store_sender p name others = elim (find p.from_center_addr others) [
  | none ↦ insert p.from_center_addr (new_sender p name) others
  | some oc ↦ put p.from_center_addr (known_sender p name oc) others
]

record_sender : CentersProto → Others → Run Others
unfolding copy_name store_sender
record_sender p others = do name ← copy_name p.leader_center; ok (store_sender p name others)

-- The second block: the vote. The new entry for an unknown leader goes under the sender's address.
count_vote : CentersProto → Others → Others × ℕ
count_vote p others = elim (find p.leader_center others) [
  | none ↦ (
    insert p.from_center_addr
        (record zeroed { start_time = 0; center_status = looking; vote_count = 1 }) others,
    0,
  )
  | some oc ↦
      let vote_count = (oc.vote_count + 1) % 2 ^ 32 in
      (put p.leader_center (record oc { vote_count = vote_count }) others, vote_count)
]

abbrev pub confirmation : Env → RpcCenter → CentersProto
confirmation env c = record empty_centers {
  from_center_addr = env.local_address;
  center_action = leader_confirm;
  start_time = c.start_time;
  logical_clock = c.logical_clock;
  center_status = leading;
  lc_start_time = c.start_time;
  leader_center = env.local_address;
}

-- The votes suffice: this center leads, or observes until the leader confirms.
conclude : Env → CentersProto → RpcCenter → Run (RpcCenter × Bool)
conclude env p c =
    let c1 = update_leading_center_infos p c in
    if bytes_eq (until_nul c1.leader_infos.leader_center) env.local_address
    then (do
      let c2 = update_center_status leading c1
      leader_thread ← deref c2.leader_thread
      let (thread, started) = start env.created leader_thread.thread
      let c3 : RpcCenter = record c2 {
        leader_thread = some (record leader_thread { thread = thread });
      }
      if not started then ok (c3, false) else (do
        let c4 : RpcCenter =
            if env.serialize_ok then broadcast_info env (confirmation env c3) c3 else c3
        election_thread ← deref c4.election_thread
        ok (
          record c4 {
            election_thread =
                some (record election_thread {
                  thread = (stop env.cancelled election_thread.thread).0;
                });
          },
          true,
        )))
    else if status_eq following c1.center_status
    then ok (c1, true)
    else ok (update_center_status observing c1, true)

unfoldable pub update_oc_status : Env → CentersProto → RpcCenter → Run (RpcCenter × Bool)
unfolding record_sender count_vote conclude
update_oc_status env p c = if ltb p.logical_clock c.logical_clock then ok (c, false) else do
  known ← record_sender p c.other_centers
  let counted = count_vote p known
  let c1 : RpcCenter = record c { other_centers = counted.0 }
  (if not (c.election_done_num == 0) && leb c.election_done_num counted.1
      then conclude env p c1
      else ok (c1, true))
