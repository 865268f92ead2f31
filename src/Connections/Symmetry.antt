-- ===== src/Connections/Symmetry.antt =====
-- `GetConnectionStatusToUser` from either side.
use skill_stew_api.Prelude.{
  ℕ, ◌≡◌, ◌≢◌, ◌⊎◌, refl, some, List, [], ◌∷◌, All, find, arith, inl, inr, Option-cases, Bool-cases,
  sym, subst,
}
use skill_stew_api.Connections.World.{UserConnection}
use skill_stew_api.Connections.Repo.{is_pair}
use skill_stew_api.Connections.UseCases.{
  ConnectionView, connected, pending_sent, pending_received, no_connection, viewed,
  get_connection_status,
}

-- What one side sees, as the other does.
abbrev pub mirrored : ConnectionView → ConnectionView
mirrored connected = connected
mirrored pending_sent = pending_received
mirrored pending_received = pending_sent
mirrored no_connection = no_connection

-- One of the two users has made the request.
abbrev pub HasRequester : UserConnection → Type 0
HasRequester c = (c.requester_id ≡ c.user_id_1) ⊎ (c.requester_id ≡ c.user_id_2)

found_HasRequester :
    (a b : ℕ) (cs : List UserConnection) (c : UserConnection)
    → All HasRequester cs
    → find (is_pair a b) cs ≡ some c
    → HasRequester c × (c.user_id_1 ≡ a) × (c.user_id_2 ≡ b)
found_HasRequester a b [] c h found = absurd (ground arith)
found_HasRequester a b (d ∷ ds) c (p, h) found = elim (Bool-cases (is_pair a b d)) [
  | inl here ↦
      let same : d ≡ c = ground arith in
      subst (λ e. HasRequester e × (e.user_id_1 ≡ a) × (e.user_id_2 ≡ b)) same
        (p, ground arith, ground arith)
  | inr other ↦ found_HasRequester a b ds c h (ground arith)
]

mirrored_view :
    (a b : ℕ) (cs : List UserConnection)
    → a ≢ b
    → All HasRequester cs
    → (viewed a (find (is_pair a b) cs) ≡ mirrored (viewed b (find (is_pair a b) cs)))
      × (viewed b (find (is_pair a b) cs) ≡ mirrored (viewed a (find (is_pair a b) cs)))
mirrored_view a b cs apart h = elim (Option-cases (find (is_pair a b) cs)) [
  | inl gone ↦ rw gone (refl, refl)
  | inr (c, found) ↦
      let (party, one, two) = found_HasRequester a b cs c h found in
      rw found (ground (arith, party, one, two, apart), ground (arith, party, one, two, apart))
]

-- Where each connection was asked for by one of its two users, two different users see the same of
-- their connection: both see it accepted, one sent what the other received, or neither sees any.
pub get_connection_status-mirrored :
    (a b : ℕ) (cs : List UserConnection)
    → a ≢ b
    → All HasRequester cs
    → get_connection_status a b cs ≡ mirrored (get_connection_status b a cs)
unfolding get_connection_status
get_connection_status-mirrored a b cs apart h =
    ground (arith, mirrored_view a b cs apart h, mirrored_view b a cs (λ e. apart (sym e)) h)
