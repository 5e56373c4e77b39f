-- ===== src/Broadcasts/Snapshot/Consistency.antt =====
-- What `BroadcastKernel.result` of core/yatagarasu_core/broadcasts.py promises when it returns.
use yatagarasu.Prelude.{
  suc, String, Bool, true, ◌&&◌, some, List, [], ◌∷◌, ◌==◌, string_eq, nat_eq, option_eq, find,
  count, length, All, ◌≡◌, ◌≢◌, ◌↔◌, refl, ap, inl, inr, Option-cases, arith,
}
use yatagarasu.Types.{BroadcastResult}
use yatagarasu.Store.Tables.{Store, BroadcastRow, BroadcastRecipient, BroadcastAudit}
use yatagarasu.Store.Exec.{ok}
use yatagarasu.Store.Rooms.{broadcast_audit}
use yatagarasu.Broadcasts.Snapshot.{
  JoinedRow, map_outcomes, all_delivered_of, snapshot_of, rows_of, result,
}
use yatagarasu.Broadcasts.Snapshot.Seats.{
  IsSeated, has_delivery, seats_of, seats_of-IsSeated, seats_of-count,
}
use yatagarasu.Broadcasts.Snapshot.Outcomes.{
  IsDelivered, Reports, map_outcomes-Reports, all_delivered_of_iff,
}

length-map_outcomes : (rows : List JoinedRow) → length (map_outcomes rows) ≡ length rows
unfolding map_outcomes
length-map_outcomes [] = refl
length-map_outcomes (row ∷ rows) = ap suc (length-map_outcomes rows)

-- The header and the audit row of the answer, the seats that it reports on, and what its fields say.
pub record Consistent (broadcast_id : String) (s : Store) (r : BroadcastResult) : Type 0 where
  pub header : BroadcastRow
  pub found : find (λ b. b.broadcast_id == broadcast_id) s.broadcasts ≡ some header
  pub same_broadcast : r.broadcast_id ≡ header.broadcast_id
  pub same_event : r.event_id ≡ header.event_id
  pub same_room : r.room_id ≡ header.room_id
  pub audit : BroadcastAudit
  pub audited : broadcast_audit header.broadcast_id s ≡ some audit
  pub audit_event : audit.event_id ≡ r.event_id
  pub audit_size : audit.roster_snapshot_size ≡ r.roster_snapshot_size
  pub complete : length r.outcomes ≡ r.roster_snapshot_size
  pub seats : List BroadcastRecipient
  pub seated : IsSeated seats
  pub frozen :
      (p : BroadcastRecipient → Bool)
      → count p seats
        ≡ count
            (λ x. (x.broadcast_id == broadcast_id) && (has_delivery s x && p x))
            s.broadcast_recipients
  pub reported : Reports s seats r.outcomes
  pub delivery :
      (r.all_delivered ≡ true)
      ↔ ((r.outcomes ≢ []) × All (λ outcome. IsDelivered outcome.state) r.outcomes)

snapshot-Consistent :
    (broadcast_id : String) (header : BroadcastRow) (s : Store) (r : BroadcastResult)
    → find (λ b. b.broadcast_id == broadcast_id) s.broadcasts ≡ some header
    → snapshot_of header (rows_of broadcast_id s) s ≡ ok r
    → Consistent broadcast_id s r
unfolding snapshot_of rows_of
snapshot-Consistent broadcast_id header s r found h =
    elim (Option-cases (broadcast_audit header.broadcast_id s)) [
      | inl absent ↦ absurd (ground arith)
      | inr (audit, audited) ↦
          let rows = rows_of broadcast_id s in
          let counted = length-map_outcomes rows in
          let is : r ≡ record {
            broadcast_id = header.broadcast_id;
            event_id = header.event_id;
            room_id = header.room_id;
            roster_snapshot_size = header.roster_snapshot_size;
            outcomes = map_outcomes rows;
            all_delivered = all_delivered_of (map_outcomes rows);
          } =
            ground arith in
          record {
            header = header;
            found = found;
            same_broadcast = ap (λ x. x.broadcast_id) is;
            same_event = ap (λ x. x.event_id) is;
            same_room = ap (λ x. x.room_id) is;
            audit = audit;
            audited = audited;
            audit_event = ground arith;
            audit_size = ground arith;
            complete = ground arith;
            seats = seats_of broadcast_id s;
            seated = seats_of-IsSeated broadcast_id s;
            frozen = seats_of-count broadcast_id s;
            reported = rw is (map_outcomes-Reports s _);
            delivery = rw is (all_delivered_of_iff (map_outcomes rows));
          }
    ]

-- When `result` returns, its header is the broadcast's, an audit row agrees with it in event and
-- size, and there are as many outcomes as the roster had seats when it was frozen. The outcomes are
-- one for each recipient row of the broadcast that has a delivery, in the order of the seats'
-- numbers; each names its row's recipient, delivery and binding, and has the delivery's state and
-- disposition; it has a reason exactly if the delivery is queued or dispatching, and no binding or
-- one that is not active. all_delivered holds exactly if there is an outcome and the state of each
-- is transport-submitted, in-session or processed.
pub result-Consistent :
    (broadcast_id : String) (s : Store) (r : BroadcastResult)
    → result broadcast_id s ≡ ok r
    → Consistent broadcast_id s r
unfolding result
result-Consistent broadcast_id s r h =
    elim (Option-cases (find (λ b. b.broadcast_id == broadcast_id) s.broadcasts)) [
      | inl absent ↦ absurd (ground arith)
      | inr (header, found) ↦
          snapshot-Consistent broadcast_id header s r found (rw (result, found) at h)
    ]
