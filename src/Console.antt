-- ===== src/Console.antt =====
-- internal/console/token.go: the tokens that authorise a browser to a VM's VNC port. The map of
-- tickets is a function; a method is given what time.Now() reads, and Mint what randomToken draws.
pub mod SingleUse
use kite_kvm.Prelude.Effects.{Exec}
use kite_kvm.Prelude.{
  String, Bool, Option, Result, err, false, if◌then◌else◌, ltb, none, ok, some, str_eq, true, ℕ,
  ◌*◌, ◌+◌, ◌==◌, ◌^◌, ◌||◌,
}

pub record Ticket : Type 0 where
  pub vm_id : String
  pub host : String
  pub port : ℕ
  pub expires_at : ℕ
  pub used : Bool

pub record TokenStore : Type 0 where
  pub ttl : ℕ
  pub tickets : String → Option Ticket

-- NewTokenStore; a ttl that is not above 0 is 0 here
unfoldable pub new_token_store : ℕ → TokenStore
new_token_store ttl = record {
  ttl = if ttl == 0 then 60 * 10 ^ 9 else ttl;
  tickets = λ token. none;
}

-- now.After(t.ExpiresAt)
abbrev pub is_expired : ℕ → Ticket → Bool
is_expired now t = ltb t.expires_at now

abbrev pub fresh_only : ℕ → Option Ticket → Option Ticket
fresh_only now none = none
fresh_only now (some t) = if is_expired now t then none else some t

-- sweep
unfoldable pub sweep : ℕ → (String → Option Ticket) → String → Option Ticket
sweep now tickets token = fresh_only now (tickets token)

-- s.tickets[token] = t
unfoldable pub put : String → Ticket → (String → Option Ticket) → String → Option Ticket
put token t tickets other_token = if str_eq token other_token then some t else tickets other_token

-- delete(s.tickets, token)
unfoldable pub remove : String → (String → Option Ticket) → String → Option Ticket
remove token tickets other_token = if str_eq token other_token then none else tickets other_token

-- what Mint is called with, and what it reads: `drawn` of randomToken, `now` for the ticket, and
-- `later` for the sweep
pub record MintCall : Type 0 where
  pub drawn : Result String
  pub vm_id : String
  pub host : String
  pub port : ℕ
  pub now : ℕ
  pub later : ℕ

abbrev pub ticket_of : ℕ → MintCall → Ticket
ticket_of ttl call = record {
  vm_id = call.vm_id;
  host = call.host;
  port = call.port;
  expires_at = call.now + ttl;
  used = false;
}

-- Mint
unfoldable pub mint : MintCall → Exec TokenStore (String × Ticket)
unfolding put sweep
mint call s = elim (call.drawn) [
  | err e ↦ (err e, s)
  | ok token ↦
      let t = ticket_of s.ttl call in
      (ok (token, t), record s { tickets = put token t (sweep call.later s.tickets) })
]

-- Redeem
unfoldable pub redeem : ℕ → String → TokenStore → Option Ticket × TokenStore
unfolding remove
redeem now token s = elim (s.tickets token) [
  | none ↦ (none, s)
  | some t ↦
      let after = record s { tickets = remove token s.tickets } in
      if t.used || is_expired now t then (none, after) else (some (record t { used = true }), after)
]
