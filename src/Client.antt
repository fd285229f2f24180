-- ===== src/Client.antt =====
-- client.go: the HTTP client of the package gologger.
pub mod Sent
use Prim.Native.Nat.{ℕ}
use mathlib.Core.Bool.{Bool, ◌||◌}
use mathlib.Core.Option.{Option, none, some}
use mathlib.Core.List.{List, ◌++◌}
use gologger.Prelude.{ltb, leb, ◌==◌, if◌then◌else◌}
use gologger.Result.{Result, ok, err, ◌>>=◌}
use gologger.Text.{Text, codes}
use gologger.Contracts.Value.{Fields}
use gologger.Storage.Codec.{Bytes}

pub record LogEntry : Type 0 where
  pub level : Text
  pub service_name : Text
  pub data_fields : Option Fields

-- The request that Send makes.
pub record Post : Type 0 where
  pub method : Text
  pub url : Text
  pub body : Bytes
  pub content_type : Text
  pub api_key : Text

-- http.Client.Do under the context of the call: a status, or an error.
abbrev pub Do : Type 0
Do = Post → Result Text ℕ

-- HTTP is nil when it is `none`.
pub record Client : Type 0 where
  pub base_url : Text
  pub api_key : Text
  pub http : Option Do

-- json.Marshal of an entry, the error of http.NewRequestWithContext for a URL, and a new http.Client with
-- a timeout of ten seconds.
pub record Network : Type 0 where
  pub marshal : LogEntry → Result Text Bytes
  pub new_request_error : Text → Option Text
  pub new_http_client : Do

pub data SendError : Type 0 where
  library_error : Text → SendError
  rate_limit_exceeded : SendError
  returned_status : ℕ → SendError

abbrev pub from_library : {A : Type 0} → Result Text A → Result SendError A
from_library (err text) = err (library_error text)
from_library (ok value) = ok value

abbrev pub made_request : Option Text → Post → Result SendError Post
made_request none post = ok post
made_request (some text) post = err (library_error text)

abbrev pub or_new : Option Do → Do → Do
or_new none new = new
or_new (some http) new = http

-- What Send makes of the status.
unfoldable pub check_status : ℕ → Result SendError (Unit {0})
check_status status =
    if status == 429
    then err rate_limit_exceeded
    else if ltb status 200 || leb 300 status
    then err (returned_status status)
    else ok tt

abbrev pub post_of : Client → Bytes → Post
post_of client body = record {
  method = codes "POST";
  url = client.base_url ++ codes "/logs";
  body = body;
  content_type = codes "application/json";
  api_key = client.api_key;
}

unfoldable pub send : Network → Client → LogEntry → Result SendError (Unit {0})
send network client entry = from_library (network.marshal entry) >>= (λ body.
    made_request (network.new_request_error (client.base_url ++ codes "/logs"))
      (post_of client body)
    >>= (λ post.
        from_library (or_new client.http network.new_http_client post)
        >>= (λ status. check_status status)))
