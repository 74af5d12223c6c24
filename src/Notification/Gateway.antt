-- ===== src/Notification/Gateway.antt =====
-- notification.gateway.ts: the sockets of the users that are connected. The rooms are those of
-- Socket.IO; `joined` has the calls of `join`, `emitted` the messages sent to rooms.
pub mod Sockets
pub mod Invariant
pub mod Presence
use nexapay_fintech_super_ap.Common.{
  ℕ, Bool, true, false, not, Option, none, some, List, [], ◌∷◌, ◌++◌, ◌==◌, any, filter, map,
  if◌then◌else◌,
}

-- `Map<string, Set<string>>`, in the order of insertion.
abbrev pub UserSockets : Type 0
UserSockets = List (ℕ × List ℕ)

-- `V` is what messages carry.
pub record Gateway (V : Type 0) : Type 0 where
  pub user_sockets : UserSockets
  pub joined : List (ℕ × ℕ)
  pub rejected : List ℕ
  pub emitted : List (ℕ × V)

-- `set.add(socket)`
abbrev pub add : ℕ → List ℕ → List ℕ
add socket sockets = if any (λ s. s == socket) sockets then sockets else sockets ++ socket ∷ []

-- The set of the user, made if there is none, with the socket added.
unfoldable pub add_socket : ℕ → ℕ → UserSockets → UserSockets
add_socket user socket [] = (user, add socket []) ∷ []
add_socket user socket ((u, sockets) ∷ rest) =
    let later = add_socket user socket rest in
    if u == user then (u, add socket sockets) ∷ rest else (u, sockets) ∷ later

-- `sets.size === 0`
abbrev pub is_empty : List ℕ → Bool
is_empty [] = true
is_empty (_ ∷ _) = false

-- The loop over the entries: the first set that has the socket loses it, and its entry goes if
-- nothing is left.
unfoldable pub remove_socket : ℕ → UserSockets → UserSockets
remove_socket socket [] = []
remove_socket socket ((u, sockets) ∷ rest) =
    let later = remove_socket socket rest in
    let left = filter (λ s. not (s == socket)) sockets in
    if any (λ s. s == socket) sockets
    then (if is_empty left then rest else (u, left) ∷ rest)
    else (u, sockets) ∷ later

module _ {V : Type 0} where
  abbrev pub started : Gateway V
  started = record { user_sockets = []; joined = []; rejected = []; emitted = [] }

  -- A client without a user id is disconnected.
  abbrev pub handle_connection : Option ℕ → ℕ → Gateway V → Gateway V
  handle_connection none client g = record g { rejected = g.rejected ++ client ∷ [] }
  handle_connection (some user) client g = record g {
    user_sockets = add_socket user client g.user_sockets;
    joined = g.joined ++ (user, client) ∷ [];
  }

  abbrev pub handle_disconnect : ℕ → Gateway V → Gateway V
  handle_disconnect client g = record g { user_sockets = remove_socket client g.user_sockets }

  abbrev pub handle_authenticate : ℕ → ℕ → Gateway V → Gateway V
  handle_authenticate user client g = record g { joined = g.joined ++ (user, client) ∷ [] }

  abbrev pub send_to_user : ℕ → V → Gateway V → Gateway V
  send_to_user user message g = record g { emitted = g.emitted ++ (user, message) ∷ [] }

  abbrev pub get_connected_user_ids : Gateway V → List ℕ
  get_connected_user_ids g = map (λ e. e.0) g.user_sockets
