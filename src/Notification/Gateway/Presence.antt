-- ===== src/Notification/Gateway/Presence.antt =====
-- notification.gateway.ts: the map of sockets against the list of open connections.
use nexapay_fintech_super_ap.Notification.Gateway.Invariant.{
  remove_socket-IsFilled, remove_socket-IsSeparate, add_socket-IsFilled, add_socket-IsSeparate,
  users-flatten,
}
use nexapay_fintech_super_ap.Notification.Gateway.Sockets.{
  any-filter, or_false, any-append, any-flatten-remove_socket, IsFilled, IsSeparate,
  any-flatten-add_socket, flatten, has_socket, Connections,
}
use nexapay_fintech_super_ap.Common.{
  ℕ, ◌≡◌, refl, sym, ap, ◌∙◌, Bool, false, not, ◌&&◌, ◌||◌, Option, none, some, List, [], ◌∷◌, ◌++◌,
  ◌==◌, any, filter,
}
use nexapay_fintech_super_ap.Notification.Gateway.{
  started, Gateway, handle_connection, handle_disconnect, handle_authenticate, send_to_user,
  get_connected_user_ids,
}

-- What clients do, and what the service sends.
pub data Event (V : Type 0) : Type 0 where
  connects : Option ℕ → ℕ → Event V
  disconnects : ℕ → Event V
  authenticates : ℕ → ℕ → Event V
  sends : ℕ → V → Event V

abbrev pub handle : {V : Type 0} → Event V → Gateway V → Gateway V
handle (Event.connects user client) = handle_connection user client
handle (Event.disconnects client) = handle_disconnect client
handle (Event.authenticates user client) = handle_authenticate user client
handle (Event.sends user message) = send_to_user user message

abbrev pub handle_all : {V : Type 0} → List (Event V) → Gateway V → Gateway V
handle_all [] g = g
handle_all (e ∷ es) g = handle_all es (handle e g)

abbrev pub connected : {V : Type 0} → Event V → Connections → Connections
connected (Event.connects (some user) client) open_ = open_ ++ (user, client) ∷ []
connected (Event.disconnects client) open_ = filter (λ p. not (p.1 == client)) open_
connected _ open_ = open_

abbrev pub connected_after : {V : Type 0} → List (Event V) → Connections → Connections
connected_after [] open_ = open_
connected_after (e ∷ es) open_ = connected_after es (connected e open_)

-- Socket.IO gives a new connection an id that no open one has.
abbrev pub HasNewId : {V : Type 0} → Event V → Connections → Type 0
HasNewId (Event.connects (some user) client) open_ = has_socket client open_ ≡ false
HasNewId _ open_ = Unit

abbrev pub HaveNewIds : {V : Type 0} → List (Event V) → Connections → Type 0
HaveNewIds [] open_ = Unit
HaveNewIds (e ∷ es) open_ = HasNewId e open_ × HaveNewIds es (connected e open_)

-- The map holds the open connections, each socket once, and no empty set.
abbrev Holds : {V : Type 0} → Gateway V → Connections → Type 0
Holds g open_ =
    ((q : ℕ × ℕ → Bool) → any q (flatten g.user_sockets) ≡ any q open_)
    × IsSeparate g.user_sockets
    × IsFilled g.user_sockets

module _ {V : Type 0} where
  handle-Holds :
      (e : Event V) (g : Gateway V) (open_ : Connections)
      → HasNewId e open_
      → Holds g open_
      → Holds (handle e g) (connected e open_)
  handle-Holds (Event.connects none client) g open_ new holds = holds
  handle-Holds (Event.connects (some user) client) g open_ new (same, sep, filled) = (
    λ q.
        any-flatten-add_socket q user client g.user_sockets
        ∙ ap (λ b. b || q (user, client)) (same q)
        ∙ sym (
            any-append q open_ ((user, client) ∷ [])
            ∙ ap (λ b. any q open_ || b) (or_false (q (user, client)))),
    add_socket-IsSeparate user client g.user_sockets (same (λ p. p.1 == client) ∙ new) sep,
    add_socket-IsFilled user client g.user_sockets filled,
  )
  handle-Holds (Event.disconnects client) g open_ new (same, sep, filled) = (
    λ q.
        any-flatten-remove_socket q client g.user_sockets sep
        ∙ same (λ p. q p && not (p.1 == client))
        ∙ sym (any-filter q (λ p. not (p.1 == client)) open_),
    remove_socket-IsSeparate client g.user_sockets sep,
    remove_socket-IsFilled client g.user_sockets filled,
  )
  handle-Holds (Event.authenticates user client) g open_ new holds = holds
  handle-Holds (Event.sends user message) g open_ new holds = holds

  handle_all-Holds :
      (es : List (Event V)) (g : Gateway V) (open_ : Connections)
      → HaveNewIds es open_
      → Holds g open_
      → Holds (handle_all es g) (connected_after es open_)
  handle_all-Holds [] g open_ new holds = holds
  handle_all-Holds (e ∷ es) g open_ (first, new) holds =
      handle_all-Holds es (handle e g) (connected e open_) new (handle-Holds e g open_ first holds)

  -- After any sequence of connections, disconnections, authentications and messages from the start,
  -- in which a new connection has an id that no open one has, the gateway counts as connected
  -- exactly the users with an open connection.
  pub handle_all-get_connected_user_ids :
      (es : List (Event V)) (user : ℕ)
      → HaveNewIds es []
      → any (λ u. u == user) (get_connected_user_ids (handle_all es started))
        ≡ any (λ p. p.0 == user) (connected_after es [])
  handle_all-get_connected_user_ids es user new =
      let (same, sep, filled) = handle_all-Holds es started [] new ((λ q. refl), tt, tt) in
      users-flatten user (handle_all es started).user_sockets filled ∙ same (λ p. p.0 == user)
