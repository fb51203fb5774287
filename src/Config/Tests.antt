-- ===== src/Config/Tests.antt =====
-- The configuration of an environment with a limit, a port that is no number and a short time.
use rust_http3_gateway.Prelude.{String, Option, none, some, if◌then◌else◌, ◌==◌}
use rust_http3_gateway.Json.Tests.{plain_case}
use rust_http3_gateway.Config.{from_env}
use rust_http3_gateway.Config.Bounds.{IsInRange, from_env-IsInRange}

abbrev small_env : String → Option String
small_env key =
    if key == "MAX_CONNECTIONS_PER_USER"
    then some "3"
    else if key == "WEBSOCKET_PORT"
    then some "70000"
    else if key == "AUTH_REQUEST_TIMEOUT_MS"
    then some "5"
    else none

abbrev no_files : String → Option String
no_files path = none

from_env-IsInRange_example : IsInRange (from_env small_env no_files)
from_env-IsInRange_example = from_env-IsInRange small_env no_files
