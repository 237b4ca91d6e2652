-- ===== src/Auth/Tests.antt =====
-- Runs of authentication, and its theorems at concrete inputs.
use mailout_operator.Base.{ℕ, true, false, [], ◌∷◌, ◌≡◌, ◌↔◌, inl}
use mailout_operator.Text.{Bytes, codes, same}
use mailout_operator.Config.{Account}
use mailout_operator.Auth.{authenticate, initial, LoginServer}
use mailout_operator.Auth.Access.{IsNamed, authenticate_iff, login, login-credentials}

abbrev shop : Account
shop = record {
  username = codes "shop";
  password_hash = codes "hash";
  disabled = false;
  allowed_senders = [];
  skip_header_from_check = false;
}

authenticate_iff_example :
    (authenticate same (shop ∷ []) (codes "shop") (codes "hash") ≡ inl shop) ↔ (
      IsNamed (codes "shop") shop (shop ∷ [])
      × (same shop.password_hash (codes "hash") ≡ true)
      × (shop.disabled ≡ false))
authenticate_iff_example = authenticate_iff same (shop ∷ []) (codes "shop") (codes "hash") shop

abbrev server : LoginServer
server = record { username = []; state = initial }

login-credentials_example :
    (login server ([] ∷ codes "shop" ∷ codes "secret" ∷ []) ≡ (codes "shop", codes "secret") ∷ [])
    × ((c : ℕ) (u : Bytes)
        → login server ((c ∷ u) ∷ codes "shop" ∷ codes "secret" ∷ []) ≡ (c ∷ u, codes "shop") ∷ [])
login-credentials_example = login-credentials (codes "shop" ∷ codes "secret" ∷ [])
