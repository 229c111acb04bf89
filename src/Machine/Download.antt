-- ===== src/Machine/Download.antt =====
-- pkg/machine/internal/utils/download.go. The parser of net/url and the client of grab are
-- parameters.
use peg.Base.{Bool, false, ◌||◌, not, Option, none, some, if◌then◌else◌}
use peg.Text.{Text, is_empty}
use peg.World.{M, ⊤, Env, Event, ◌>>=◌, ◌>>◌, panics, same, return_if, call, try}

-- net/url: whether `ParseRequestURI` accepts a text, and the scheme and the host that `Parse` finds
-- in it, if it accepts the text.
pub record UrlParser : Type 0 where
  pub parse_request_uri : Text → Bool
  pub parse : Text → Option (Text × Text)

unfoldable pub is_valid_url : UrlParser → Text → Bool
is_valid_url U to_test =
    if U.parse_request_uri to_test
    then elim (U.parse to_test) [
      | none ↦ false
      | some (scheme, host) ↦ not (is_empty scheme || is_empty host)
    ]
    else false

module _ (E : Env) where
  -- The reply of `grab_do` is that at the end of the transfer, for which the loop waits. Its flag
  -- says that there was an HTTP response: the code reads the status of `resp.HTTPResponse` before
  -- it looks at the error.
  unfoldable pub download : Text → Text → M ⊤
  download url dest = do
    try E (Event.grab_request dest url)
    resp ← call E (Event.grab_do url dest)
    if resp.flag then return_if same resp.error else panics
