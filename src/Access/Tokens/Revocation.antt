-- ===== src/Access/Tokens/Revocation.antt =====
-- auth.repository.ts, `revokeAllUserRefreshTokens`.
use nexapay_fintech_super_ap.Common.{
  ℕ, ◌≡◌, refl, ap, ◌∙◌, Bool, true, false, not, ◌&&◌, Option, some, List, [], ◌∷◌, ◌==◌, map,
  if◌then◌else◌,
}
use mathlib.Core.Option
use nexapay_fintech_super_ap.Common.Rows.{find?}
use nexapay_fintech_super_ap.Common.Action.{ok}
use nexapay_fintech_super_ap.Access.Tokens.{
  RefreshToken, Db, Clients, is_token, find_refresh_token, revoke_all_user_refresh_tokens,
}

-- A token after all of a user's are revoked.
abbrev pub revoked_for : ℕ → RefreshToken → RefreshToken
revoked_for user_id t = if t.user_id == user_id then record t { is_revoked = true } else t

abbrev swept : ℕ → RefreshToken → RefreshToken
swept user_id t =
    if (t.user_id == user_id) && not t.is_revoked then record t { is_revoked = true } else t

revoked_again : (t : RefreshToken) → t.is_revoked ≡ true → t ≡ record t { is_revoked = true }
revoked_again t e = ap (λ b. record t { is_revoked = b }) e

-- Only tokens that are not revoked are written, which makes no difference.
sweep_same :
    (mine : Bool) (revoked : Bool) (t : RefreshToken)
    → t.is_revoked ≡ revoked
    → (if mine && not revoked then record t { is_revoked = true } else t)
      ≡ (if mine then record t { is_revoked = true } else t)
sweep_same false revoked t e = refl
sweep_same true true t e = revoked_again t e
sweep_same true false t e = refl

swept-revoked_for : (user_id : ℕ) (t : RefreshToken) → swept user_id t ≡ revoked_for user_id t
swept-revoked_for user_id t = sweep_same (t.user_id == user_id) t.is_revoked t refl

swept_token :
    (b : Bool) (t : RefreshToken)
    → (if b then record t { is_revoked = true } else t).token ≡ t.token
swept_token true t = refl
swept_token false t = refl

head-swept :
    (user_id : ℕ) (t : RefreshToken) (b : Bool) (x y : Option RefreshToken)
    → x ≡ Option.map (revoked_for user_id) y
    → (if b then some (swept user_id t) else x)
      ≡ Option.map (revoked_for user_id) (if b then some t else y)
head-swept user_id t true x y h = ap some (swept-revoked_for user_id t)
head-swept user_id t false x y h = h

find?-swept :
    (user_id token : ℕ) (ts : List RefreshToken)
    → find? (is_token token) (map (swept user_id) ts)
      ≡ Option.map (revoked_for user_id) (find? (is_token token) ts)
find?-swept user_id token [] = refl
find?-swept user_id token (t ∷ ts) =
    ap
      (λ n.
        if n == token
        then some (swept user_id t)
        else find? (is_token token) (map (swept user_id) ts))
      (swept_token ((t.user_id == user_id) && not t.is_revoked) t)
    ∙ head-swept user_id t (t.token == token) _ _ (find?-swept user_id token ts)

-- After all refresh tokens of a user are revoked, every token that is looked up is what it was, and
-- revoked if it is one of that user; there are no more and no fewer tokens.
pub revoke_all_user_refresh_tokens-find_refresh_token :
    (c : Clients) (user_id token : ℕ) (d : Db)
    → find_refresh_token c token (revoke_all_user_refresh_tokens c user_id d).1 ≡ (
      ok (Option.map (revoked_for user_id) (find? (is_token token) d.tokens)),
      (revoke_all_user_refresh_tokens c user_id d).1,
    )
unfolding find_refresh_token revoke_all_user_refresh_tokens
revoke_all_user_refresh_tokens-find_refresh_token c user_id token d =
    rw (c.tokens.find_unique_lem (is_token token) (map (swept user_id) d.tokens)) (
      ap (λ o. (ok o, record d { tokens = map (swept user_id) d.tokens }))
        (find?-swept user_id token d.tokens))
