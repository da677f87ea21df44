-- ===== src/Dns.antt =====
-- dns.go, the ConfigMap half: reading and writing the line of a DNS schedule.
pub mod Window
pub mod Told
pub mod Acted
pub mod Store
pub mod InPlace
pub mod Reconcile
use agentic_preview.Common.{
  ℕ, Bool, true, false, List, [], ◌∷◌, ◌++◌, Option, none, some, if◌then◌else◌, text_key,
}
use agentic_preview.Common.Assoc.{Assoc, get, put}
use agentic_preview.Common.Result.{Result, ok, err}
use agentic_preview.Text.{Text, codes}
use agentic_preview.Schedule.{Schedule}
use agentic_preview.Hosts.{
  hosts_tag, hosts_line, find_tagged_line, apply_tagged_line, remove_tagged_line,
}

-- What the service reads and writes of a ConfigMap.
pub record ConfigMap : Type 0 where
  pub version : Text
  pub entries : Assoc Text Text

-- The kinds of error that `dnsConfigMapErr` tells apart, each with its own message.
pub data KubeError : Type 0 where
  not_found forbidden other_error : Text → KubeError

-- The Kubernetes client (kube.go), over the state of everything outside the process: the configured
-- ConfigMap, and pods by namespace and selector or name.
pub record Kube (W : Type 0) : Type 0 where
  pub get_config_map : W → Result KubeError ConfigMap × W
  pub update_config_map : ConfigMap → W → Result KubeError (Unit {0}) × W
  pub list_pods : Text → Text → W → Result Text (List Text) × W
  pub delete_pod : Text → Text → W → Result Text (Unit {0}) × W

-- `s.kube`, or `s.kubeErr` where there is none
pub data Client (W : Type 0) : Type 0 where
  connected : Kube W → Client W
  no_client : Text → Client W

-- The part of `config` that names the ConfigMap and its key.
pub record DnsConfig : Type 0 where
  pub namespace : Text
  pub name : Text
  pub key : Text

-- `dnsTargetRef`
unfoldable pub dns_target_ref : DnsConfig → Text
dns_target_ref cfg =
    cfg.namespace ++ (codes "/" ++ (cfg.name ++ (codes "[" ++ (cfg.key ++ codes "]"))))

-- `dnsConfigMapErr`
unfoldable pub dns_config_map_err : Text → KubeError → Text
dns_config_map_err ref (not_found e) =
    codes "ConfigMap "
    ++ (ref
        ++ (codes " does not exist - this mode never creates it; "
            ++ (codes "point SCHEDULE_DNS_CONFIGMAP_NAMESPACE/_NAME at one that does: " ++ e)))
dns_config_map_err ref (forbidden e) =
    codes "not permitted to read or write ConfigMap "
    ++ (ref
        ++ (codes ": agentic-preview's ServiceAccount "
            ++ (codes
                  "needs get and update on that ConfigMap in that namespace, which the shipped RBAC does NOT "
                ++ (codes "grant by default: " ++ e))))
dns_config_map_err ref (other_error e) = codes "ConfigMap " ++ (ref ++ (codes ": " ++ e))

abbrev pub no_api : Text → Text
no_api e = codes "no Kubernetes API client: " ++ e

abbrev pub or_empty : Option Text → Text
or_empty none = []
or_empty (some s) = s

-- `cm.Data[key]`
abbrev pub content_of : DnsConfig → ConfigMap → Text
content_of cfg cm = or_empty (get cfg.key cm.entries)

module _ (cfg : DnsConfig) (sc : Schedule) where
  unfoldable pub line_read : Result KubeError ConfigMap → Result Text Text
  unfolding dns_config_map_err dns_target_ref get find_tagged_line hosts_tag
  line_read (err e) = err (dns_config_map_err (dns_target_ref cfg) e)
  line_read (ok cm) = ok (or_empty (find_tagged_line (content_of cfg cm) (hosts_tag sc.spec.name)))

  -- `readHostsLine`
  unfoldable pub read_hosts_line : {W : Type 0} → Client W → W → Result Text Text × W
  unfolding line_read
  read_hosts_line (no_client e) w = (err (no_api e), w)
  read_hosts_line (connected k) w = let (r, w1) = k.get_config_map w in (line_read r, w1)

  -- The one key, edited by the one tag.
  unfoldable pub edited_content : Bool → Text → Text × Bool
  unfolding apply_tagged_line remove_tagged_line hosts_line hosts_tag
  edited_content present content =
      if present
      then apply_tagged_line content (hosts_line sc) (hosts_tag sc.spec.name)
      else remove_tagged_line content (hosts_tag sc.spec.name)

  abbrev pub with_content : ConfigMap → Text → ConfigMap
  with_content cm next = record cm { entries = put cfg.key next cm.entries }

  unfoldable pub update_result : Result KubeError (Unit {0}) → Result Text Bool
  unfolding dns_config_map_err dns_target_ref
  update_result (err e) = err (dns_config_map_err (dns_target_ref cfg) e)
  update_result (ok done) = ok true

  -- The part of `writeHostsLine` behind the read.
  unfoldable pub write_back :
      {W : Type 0} → Kube W → Bool → Result KubeError ConfigMap → W → Result Text Bool × W
  unfolding dns_config_map_err dns_target_ref get edited_content put update_result
  write_back k present (err e) w = (err (dns_config_map_err (dns_target_ref cfg) e), w)
  write_back k present (ok cm) w =
      let (next, changed) = edited_content present (content_of cfg cm) in
      let (r, w1) = k.update_config_map (with_content cm next) w in
      if changed then (update_result r, w1) else (ok false, w)

  -- `writeHostsLine`
  unfoldable pub write_hosts_line : {W : Type 0} → Client W → Bool → W → Result Text Bool × W
  unfolding write_back
  write_hosts_line (no_client e) present w = (err (no_api e), w)
  write_hosts_line (connected k) present w =
      let (r, w1) = k.get_config_map w in write_back k present r w1
