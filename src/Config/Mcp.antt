-- ===== src/Config/Mcp.antt =====
-- internal/core/config/validator.go: the check of the tool server's section.
use code_watch.Prelude.{
  String, not, ◌&&◌, ◌||◌, Option, none, some, List, [], if◌then◌else◌, str_eq,
}
use code_watch.Prelude.Int.{pos, lessℤ}
use code_watch.Text.{GoText, blank}
use code_watch.Config.Types.{Mcp, Fault, empty_value, out_of_range, not_one_of, conflict, invalid}
use code_watch.Config.Loops.{check_each, or_else}
use code_watch.Config.Sections.{is_empty}

module _ (text : GoText) where
  -- The tests of the mode, the transport and the address.
  unfoldable pub check_transport : Mcp → Option Fault
  check_transport mcp =
      let mode = text.lower (text.trim mcp.mode) in
      let transport = text.lower (text.trim mcp.transport) in
      if not (str_eq mode "embedded" || str_eq mode "server")
      then some (not_one_of "mcp.mode")
      else if not (str_eq transport "stdio" || str_eq transport "http")
      then some (not_one_of "mcp.transport")
      else if str_eq transport "http" && blank text mcp.address
      then some (empty_value "mcp.address")
      else if mcp.enabled && (str_eq mode "embedded" && str_eq transport "http")
      then some (conflict "mcp.transport" "mcp.mode")
      else none

  -- The tests of the bounds and of the settings that exclude each other.
  unfoldable pub check_bounds : Mcp → Option Fault
  check_bounds mcp =
      let exposed = text.trim mcp.exposed_tool_name in
      if lessℤ mcp.max_response_items (pos 1) || lessℤ (pos 5000) mcp.max_response_items
      then some (out_of_range "mcp.max_response_items")
      else if lessℤ mcp.request_timeout (pos 1000000000)
          || lessℤ (pos 120000000000) mcp.request_timeout
      then some (out_of_range "mcp.request_timeout")
      else if not (str_eq exposed "") && text.has_space exposed
      then some (invalid "mcp.exposed_tool_name")
      else if not (blank text mcp.open_api_spec_path) && not (blank text mcp.open_api_spec_url)
      then some (conflict "mcp.openapi_spec_path" "mcp.openapi_spec_url")
      else none

  unfoldable pub check_allowlist : List String → Option Fault
  unfolding check_each
  check_allowlist ops =
      check_each (blank text) (λ op. text.lower (text.trim op))
        (empty_value "mcp.operation_allowlist") "mcp.operation_allowlist" [] ops

  -- The tests of a server that is in use.
  unfoldable pub check_enabled : Mcp → Option Fault
  check_enabled mcp =
      if not mcp.enabled
      then none
      else if blank text mcp.server_name
      then some (empty_value "mcp.server_name")
      else if blank text mcp.server_version
      then some (empty_value "mcp.server_version")
      else if not (blank text mcp.exposed_tool_name) && not (is_empty mcp.operation_allowlist)
      then some (conflict "mcp.exposed_tool_name" "mcp.operation_allowlist")
      else if blank text mcp.exposed_tool_name && is_empty mcp.operation_allowlist
      then some (empty_value "mcp.operation_allowlist")
      else none

  unfoldable pub validate_mcp : Mcp → Option Fault
  unfolding check_transport check_bounds check_allowlist check_enabled
  validate_mcp mcp = or_else (check_transport mcp) (
      or_else (check_bounds mcp)
        (or_else (check_allowlist mcp.operation_allowlist) (check_enabled mcp)))
