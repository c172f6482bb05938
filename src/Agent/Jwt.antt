-- ===== src/Agent/Jwt.antt =====
-- implementation/agent/src/utils/jwt.ts: the token of a virtual user. k6/encoding, k6/crypto, the
-- clock and the quoting of JSON.stringify are parameters.
use Prim.Native.String
use tugas_akhir.Common.{ℕ, ◌+◌, ◌/◌, String, List}
use tugas_akhir.Common.Text.{show}
use tugas_akhir.Agent.Kit.{Kit}

pub record Crypto (W : Type 0) : Type 0 where
  -- `Date.now()`
  pub now : W → ℕ × W
  -- `encoding.b64encode(data, "rawurl")`, of a string and of bytes
  pub encode_text : String → String
  pub encode_binary : List ℕ → String
  -- `crypto.hmac("sha256", secret, data, "binary")`
  pub hmac : String → String → List ℕ
  -- a string as JSON.stringify prints it
  pub quote : String → String

infixr 60 ◌⧺◌
abbrev ◌⧺◌ : String → String → String
◌⧺◌ = String.◌++◌

pub header_text : String
header_text = "{\"alg\":\"HS256\",\"typ\":\"JWT\"}"

module _ {W : Type 0} (kit : Kit W) (crypto : Crypto W) where
  -- JSON.stringify(payload)
  pub payload_text : String → ℕ → ℕ → ℕ → String
  payload_text user exp nbf iat =
      "{\"user_id\":"
      ⧺ crypto.quote user
      ⧺ ",\"iss\":\"k6\",\"sub\":\"k6-user\",\"aud\":\"ticket-service\",\"exp\":"
      ⧺ show exp
      ⧺ ",\"nbf\":"
      ⧺ show nbf
      ⧺ ",\"iat\":"
      ⧺ show iat
      ⧺ "}"

  abbrev seconds : W → ℕ × W
  seconds w = ((crypto.now w).0 / 1000, (crypto.now w).1)

  pub sign : String → String
  unfolding header_text
  sign payload =
      let to_sign = crypto.encode_text header_text ⧺ "." ⧺ crypto.encode_text payload in
      to_sign ⧺ "." ⧺ crypto.encode_binary (crypto.hmac "secret" to_sign)

  -- forgeJwt, as far as the token.
  unfoldable pub forge_jwt : W → String × W
  unfolding sign payload_text
  forge_jwt w =
      let (user, w1) = kit.uuid w in
      let (exp, w2) = seconds w1 in
      let (nbf, w3) = seconds w2 in
      let (iat, w4) = seconds w3 in (sign (payload_text user (exp + 10800) nbf iat), w4)
