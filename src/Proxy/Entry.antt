-- ===== src/Proxy/Entry.antt =====
-- ProxyEntry of boot/proxy_entry.go, as NewProxyEntry makes it of its options. The entries for the log
-- and the events are of rk-entry; NewLoggerEntryStdout and NewEventEntryStdout give the ones that
-- stand in for none.
use rk_grpc.Prelude.{String, Option, none, some, List, [], ◌∷◌}
use rk_grpc.Proxy.Rule.{Rule}

abbrev pub proxy_entry_name_default : String
proxy_entry_name_default = "ProxyDefault"

abbrev pub proxy_entry_type : String
proxy_entry_type = "ProxyEntry"

pub record ProxyEntry (Logger Events : Type 0) : Type 0 where
  pub entry_name : String
  pub entry_type : String
  pub entry_description : String
  pub logger_entry : Option Logger
  pub event_entry : Option Events
  pub r : Option Rule

abbrev pub ProxyEntryOption : Type 0 → Type 0 → Type 0
ProxyEntryOption Logger Events = ProxyEntry Logger Events → ProxyEntry Logger Events

-- `if entry.LoggerEntry == nil { … }`, and the same for the events
unfoldable pub or_stdout : {A : Type 0} → Option A → A → Option A
or_stdout none stdout = some stdout
or_stdout (some a) stdout = some a

module _ {Logger Events : Type 0} where
  unfoldable pub with_name_proxy : String → ProxyEntryOption Logger Events
  with_name_proxy name entry = record entry { entry_name = name }

  unfoldable pub with_logger_entry_proxy : Option Logger → ProxyEntryOption Logger Events
  with_logger_entry_proxy logger entry = record entry { logger_entry = logger }

  unfoldable pub with_event_entry_proxy : Option Events → ProxyEntryOption Logger Events
  with_event_entry_proxy events entry = record entry { event_entry = events }

  unfoldable pub with_rule_proxy : Rule → ProxyEntryOption Logger Events
  with_rule_proxy rule entry = record entry { r = some rule }

  unfoldable pub apply_proxy_options :
      List (ProxyEntryOption Logger Events) → ProxyEntryOption Logger Events
  apply_proxy_options [] entry = entry
  apply_proxy_options (o ∷ os) entry = apply_proxy_options os (o entry)

  unfoldable pub new_proxy_entry :
      Logger → Events → List (ProxyEntryOption Logger Events) → ProxyEntry Logger Events
  unfolding apply_proxy_options or_stdout
  new_proxy_entry stdout_logger stdout_events opts =
      let entry = apply_proxy_options opts (record {
        entry_name = proxy_entry_name_default;
        entry_type = proxy_entry_type;
        entry_description = "Internal RK entry which implements proxy with Grpc framework.";
        logger_entry = some stdout_logger;
        event_entry = some stdout_events;
        r = none;
      }) in
      record entry {
        logger_entry = or_stdout entry.logger_entry stdout_logger;
        event_entry = or_stdout entry.event_entry stdout_events;
      }
