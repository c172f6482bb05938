-- ===== src/Payment/Echo.antt =====
-- implementation/payment/src/cmd/echo/index.ts: the server that returns what it is sent.
use text.Mathlib.Text.{◌==◌ as str_eq}
use Prim.Native.String
use tugas_akhir.Common.{ℕ, ◌≡◌, refl, String, Option, none, some, Outcome, ok, throw, if◌then◌else◌}

pub record EchoResponse : Type 0 where
  pub status : ℕ
  pub content_type : String
  pub body : String

abbrev plain_text : String
plain_text = "text/plain"

-- `c.req.header("content-type") || "text/plain"`
abbrev content_type_of : Option String → String
content_type_of none = plain_text
content_type_of (some t) = if str_eq t "" then plain_text else t

-- The handler of every path, by the content type and what `c.req.text()` gives or throws. The
-- header of a response by `c.text` is the framework's.
unfoldable pub echo_all : Option String → Outcome String String → EchoResponse
echo_all content_type (ok body) = record {
  status = 200;
  content_type = content_type_of content_type;
  body = body;
}
echo_all content_type (throw text) = record {
  status = 500;
  content_type = plain_text;
  body = String.◌++◌ "Error processing request: " text;
}

json_test :
    echo_all (some "application/json") (ok "[1]")
    ≡ record { status = 200; content_type = "application/json"; body = "[1]" }
unfolding echo_all
json_test = refl

aborted_test : echo_all none (throw "aborted") ≡ record {
  status = 500;
  content_type = "text/plain";
  body = "Error processing request: aborted";
}
unfolding echo_all
aborted_test = refl
