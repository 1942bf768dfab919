-- ===== src/Examples/Consoles.antt =====
-- Console tokens at concrete calls.
use kite_kvm.Console.SingleUse.{TokenOp, minting, redeem-mint, redeem-once, redeeming, token_ops}
use kite_kvm.Console.{MintCall, TokenStore, mint, redeem, ticket_of}
use kite_kvm.Prelude.{List, [], none, ok, refl, some, true, ◌∷◌, ◌≡◌}

abbrev call : MintCall
call = record {
  drawn = ok "t1";
  vm_id = "vm1";
  host = "127.0.0.1";
  port = 5900;
  now = 100;
  later = 101;
}

abbrev tokens : TokenStore
tokens = record { ttl = 60; tickets = λ token. none }

abbrev others : List TokenOp
others = minting (record call { drawn = ok "t2" }) ∷ redeeming 110 "t2" ∷ []

redeem-once_example :
    (redeem 130 "t1" (token_ops others (redeem 120 "t1" (mint call tokens).1).1)).0 ≡ none
redeem-once_example = redeem-once 120 130 "t1" others (mint call tokens).1 (refl, (refl, tt))

redeem-mint_example :
    (redeem 150 "t1" (token_ops others (mint call tokens).1)).0
    ≡ some (record (ticket_of 60 call) { used = true })
redeem-mint_example = redeem-mint call "t1" others 150 tokens refl (refl, (refl, tt))
