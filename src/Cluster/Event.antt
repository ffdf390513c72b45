-- ===== src/Cluster/Event.antt =====
-- cluster/event.go: the handler of the membership library's notifications. How a node's
-- metadata is decoded (`encoding/json`) is a parameter.
use pi_bully.Prelude.{
  ℕ, ◌≤◌, ◌≡◌, refl, String, Option, none, some, List, [], ◌∷◌, length, offer, length-offer, ◌==◌,
  if◌then◌else◌, ◌∙◌, ap, Distinct, Option-cases, inl, inr,
}
use pi_bully.Text.{Text}
use pi_bully.Text.Decimal.{parse_uint}
use pi_bully.Cluster.Members.{
  Member, Members, lookup, insert, delete, keys, lookup-insert, lookup-delete, IsKeyed,
  insert-IsKeyed, delete-IsKeyed, insert-Distinct, delete-Distinct,
}

pub data ClusterEvent : Type 0 where
  join leave : (member_id : ℕ) → ClusterEvent

pub record EventHandler : Type 0 where
  pub members : Members
  pub event_c : List ClusterEvent

abbrev pub event_cap : ℕ
event_cap = 16

unfoldable pub new_event_handler : EventHandler
new_event_handler = record { members = []; event_c = [] }

-- A notification, with the name of the node and its metadata.
pub data Notification (Meta : Type 0) : Type 0 where
  notify_join notify_leave notify_update : Text → Meta → Notification Meta

-- A name that is a number, and metadata that can be decoded.
abbrev both : Option ℕ → Option String → Option (ℕ × String)
both none addr = none
both (some id) none = none
both (some id) (some addr) = some (id, addr)

-- What the handler keeps between two notifications.
pub record IsSound (h : EventHandler) : Type 0 where
  pub keyed : IsKeyed h.members
  pub distinct : Distinct (keys h.members)
  pub bounded : length h.event_c ≤ event_cap

module _ {Meta : Type 0} (decode_meta : Meta → Option String) where
  unfoldable pub notify : EventHandler → Notification Meta → EventHandler
  unfolding insert delete offer
  notify h (notify_join name meta) = elim (both (parse_uint name) (decode_meta meta)) [
    | none ↦ h
    | some (id, addr) ↦ record {
      members = insert id (record { id = id; grpc_addr = addr }) h.members;
      event_c = offer event_cap h.event_c (join id);
    }
  ]
  notify h (notify_leave name meta) = elim (parse_uint name) [
    | none ↦ h
    | some id ↦ record {
      members = delete id h.members;
      event_c = offer event_cap h.event_c (leave id);
    }
  ]
  notify h (notify_update name meta) = elim (both (parse_uint name) (decode_meta meta)) [
    | none ↦ h
    | some (id, addr) ↦ record h {
      members = insert id (record { id = id; grpc_addr = addr }) h.members;
    }
  ]

  pub notify_all : EventHandler → List (Notification Meta) → EventHandler
  notify_all h [] = h
  notify_all h (n ∷ ns) = notify_all (notify h n) ns

  -- What a notification says of one node, given what was known of it.
  pub heard : ℕ → Option Member → Notification Meta → Option Member
  heard id known (notify_join name meta) = elim (both (parse_uint name) (decode_meta meta)) [
    | none ↦ known
    | some (k, addr) ↦ if k == id then some (record { id = k; grpc_addr = addr }) else known
  ]
  heard id known (notify_leave name meta) = elim (parse_uint name) [
    | none ↦ known
    | some k ↦ if k == id then none else known
  ]
  heard id known (notify_update name meta) = elim (both (parse_uint name) (decode_meta meta)) [
    | none ↦ known
    | some (k, addr) ↦ if k == id then some (record { id = k; grpc_addr = addr }) else known
  ]

  pub heard_all : ℕ → Option Member → List (Notification Meta) → Option Member
  heard_all id known [] = known
  heard_all id known (n ∷ ns) = heard_all id (heard id known n) ns

  notify-heard :
      (h : EventHandler) (n : Notification Meta) (id : ℕ)
      → lookup id (notify h n).members ≡ heard id (lookup id h.members) n
  unfolding notify heard
  notify-heard h (notify_join name meta) id =
      elim (Option-cases (both (parse_uint name) (decode_meta meta))) [
        | inl e ↦ rw (e, notify, heard)
        | inr ((k, addr), e) ↦ rw (e, notify, heard) (lookup-insert id k _ h.members)
      ]
  notify-heard h (notify_leave name meta) id = elim (Option-cases (parse_uint name)) [
    | inl e ↦ rw (e, notify, heard)
    | inr (k, e) ↦ rw (e, notify, heard) (lookup-delete id k h.members)
  ]
  notify-heard h (notify_update name meta) id =
      elim (Option-cases (both (parse_uint name) (decode_meta meta))) [
        | inl e ↦ rw (e, notify, heard)
        | inr ((k, addr), e) ↦ rw (e, notify, heard) (lookup-insert id k _ h.members)
      ]

  -- After any notifications, in any order, the handler's map says of each node what the notifications
  -- about that node say, the latest one last, and nothing else: those about other nodes, and those
  -- that cannot be read, make no difference to it.
  pub members_follow :
      (h : EventHandler) (ns : List (Notification Meta)) (id : ℕ)
      → lookup id (notify_all h ns).members ≡ heard_all id (lookup id h.members) ns
  unfolding notify_all heard_all
  members_follow h [] id = refl
  members_follow h (n ∷ ns) id =
      members_follow (notify h n) ns id ∙ ap (λ known. heard_all id known ns) (notify-heard h n id)

  notify-IsSound : (h : EventHandler) (n : Notification Meta) → IsSound h → IsSound (notify h n)
  unfolding notify
  notify-IsSound h (notify_join name meta) s =
      elim (Option-cases (both (parse_uint name) (decode_meta meta))) [
        | inl e ↦ rw (e, notify) s
        | inr ((k, addr), e) ↦
            rw (e, notify)
              (record {
                keyed = insert-IsKeyed k _ h.members refl s.keyed;
                distinct = insert-Distinct k _ h.members s.distinct;
                bounded = length-offer event_cap h.event_c (join k) s.bounded;
              })
      ]
  notify-IsSound h (notify_leave name meta) s = elim (Option-cases (parse_uint name)) [
    | inl e ↦ rw (e, notify) s
    | inr (k, e) ↦
        rw (e, notify)
          (record {
            keyed = delete-IsKeyed k h.members s.keyed;
            distinct = delete-Distinct k h.members s.distinct;
            bounded = length-offer event_cap h.event_c (leave k) s.bounded;
          })
  ]
  notify-IsSound h (notify_update name meta) s =
      elim (Option-cases (both (parse_uint name) (decode_meta meta))) [
        | inl e ↦ rw (e, notify) s
        | inr ((k, addr), e) ↦
            rw (e, notify)
              (record {
                keyed = insert-IsKeyed k _ h.members refl s.keyed;
                distinct = insert-Distinct k _ h.members s.distinct;
                bounded = s.bounded;
              })
      ]

  -- Whatever the library notifies, the handler keeps one entry for a node, under the node's own
  -- identifier, and at most as many events as the channel has room for.
  pub notify_all-IsSound :
      (h : EventHandler) (ns : List (Notification Meta)) → IsSound h → IsSound (notify_all h ns)
  unfolding notify_all
  notify_all-IsSound h [] s = s
  notify_all-IsSound h (n ∷ ns) s = notify_all-IsSound (notify h n) ns (notify-IsSound h n s)
