-- ===== src/Console/SingleUse.antt =====
-- What a token is worth, whatever else is minted and redeemed in between.
use kite_kvm.Console.{MintCall, Ticket, TokenStore, mint, put, redeem, remove, sweep, ticket_of}
use kite_kvm.Prelude.{
  String, All, Bool, List, Result, [], arith, eq_iff, err, false, if◌then◌else◌, leb, ltb, none,
  not, ok, some, str_eq, true, ℕ, ◌&&◌, ◌+◌, ◌∷◌, ◌≡◌,
}

-- a call of one of the two methods, by any client
pub data TokenOp : Type 0 where
  minting : MintCall → TokenOp
  redeeming : ℕ → String → TokenOp

unfoldable pub token_op : TokenOp → TokenStore → TokenStore
token_op (minting call) s = (mint call s).1
token_op (redeeming now token) s = (redeem now token s).1

unfoldable pub token_ops : List TokenOp → TokenStore → TokenStore
token_ops [] s = s
token_ops (op ∷ ops) s = token_ops ops (token_op op s)

abbrev pub draws : String → Result String → Bool
draws token (ok drawn) = str_eq drawn token
draws token (err e) = false

abbrev pub mints : String → TokenOp → Bool
mints token (minting call) = draws token call.drawn
mints token (redeeming now token') = false

-- the call leaves a ticket alone that expires at the time: it neither draws the token again nor
-- redeems it, and it sweeps no later than that
abbrev pub spares : String → ℕ → TokenOp → Bool
spares token expiry (minting call) = not (draws token call.drawn) && leb call.later expiry
spares token expiry (redeeming now token') = not (str_eq token' token)

stays_gone :
    (op : TokenOp) (s : TokenStore) (token : String)
    → mints token op ≡ false
    → s.tickets token ≡ none
    → (token_op op s).tickets token ≡ none
unfolding token_op mint redeem put sweep remove
stays_gone (minting call) s token differs gone = ground (arith, differs, gone)
stays_gone (redeeming now token') s token differs gone = ground (arith, gone)

ops_gone :
    (ops : List TokenOp) (s : TokenStore) (token : String)
    → All (λ op. mints token op ≡ false) ops
    → s.tickets token ≡ none
    → (token_ops ops s).tickets token ≡ none
unfolding token_ops
ops_gone [] s token others gone = gone
ops_gone (op ∷ ops) s token others gone =
    ops_gone ops (token_op op s) token others.1 (stays_gone op s token others.0 gone)

redeem_gone :
    (now : ℕ) (token : String) (s : TokenStore) → (redeem now token s).1.tickets token ≡ none
unfolding redeem remove
redeem_gone now token s = ground (arith, eq_iff token token)

redeem_missing :
    (now : ℕ) (token : String) (s : TokenStore)
    → s.tickets token ≡ none
    → (redeem now token s).0 ≡ none
unfolding redeem
redeem_missing now token s gone = ground (arith, gone)

-- Once a token has been presented, whatever came of it, no later redemption of it succeeds,
-- whatever is minted and redeemed in between, as long as the token is not drawn again.
pub redeem-once :
    (now now' : ℕ) (token : String) (ops : List TokenOp) (s : TokenStore)
    → All (λ op. mints token op ≡ false) ops
    → (redeem now' token (token_ops ops (redeem now token s).1)).0 ≡ none
redeem-once now now' token ops s others =
    let after = token_ops ops (redeem now token s).1 in
    redeem_missing now' token after
      (ops_gone ops (redeem now token s).1 token others (redeem_gone now token s))

stays :
    (op : TokenOp) (s : TokenStore) (token : String) (t : Ticket)
    → spares token t.expires_at op ≡ true
    → s.tickets token ≡ some t
    → (token_op op s).tickets token ≡ some t
unfolding token_op mint redeem put sweep remove
stays (minting call) s token t differs held = ground (arith, differs, held)
stays (redeeming now token') s token t differs held = ground (arith, differs, held)

ops_stay :
    (ops : List TokenOp) (s : TokenStore) (token : String) (t : Ticket)
    → All (λ op. spares token t.expires_at op ≡ true) ops
    → s.tickets token ≡ some t
    → (token_ops ops s).tickets token ≡ some t
unfolding token_ops
ops_stay [] s token t others held = held
ops_stay (op ∷ ops) s token t others held =
    ops_stay ops (token_op op s) token t others.1 (stays op s token t others.0 held)

minted :
    (call : MintCall) (token : String) (s : TokenStore)
    → call.drawn ≡ ok token
    → (mint call s).1.tickets token ≡ some (ticket_of s.ttl call)
unfolding mint put
minted call token s h = ground (arith, h, eq_iff token token)

-- A token that was minted is redeemed for the VM and the port it was minted for, marked as used, up
-- to the end of its time to live and not after it, whatever other tokens are minted and redeemed in
-- between, as long as the token is not drawn or presented in between and no sweep in between reads
-- a time after the end.
pub redeem-mint :
    (call : MintCall) (token : String) (ops : List TokenOp) (now : ℕ) (s : TokenStore)
    → call.drawn ≡ ok token
    → All (λ op. spares token (call.now + s.ttl) op ≡ true) ops
    → (redeem now token (token_ops ops (mint call s).1)).0 ≡ (
        if ltb (call.now + s.ttl) now
        then none
        else some (record (ticket_of s.ttl call) { used = true }))
unfolding redeem
redeem-mint call token ops now s h others =
    let held =
      ops_stay ops (mint call s).1 token (ticket_of s.ttl call) others (minted call token s h) in
    ground (arith, held)
