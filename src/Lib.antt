-- ===== src/Lib.antt =====
-- NGFW.sh: the API worker.
--
-- NGFW.sh is the cloud side of a firewall for home and small-office routers. This library models the
-- API worker in packages/schema/src: a Hono application on Cloudflare Workers whose handlers read and
-- write D1 (SQL tables), KV (texts under keys with a time to live) and R2 (files). A request to a
-- modelled route passes the middleware clerkAuth, which finds the user of its bearer token; the handler
-- then acts for that user, and app.onError answers for what it throws.
--
-- The portal in packages/portal-astro calls this worker with the client of its lib/api/client.ts; its
-- composables keep what a page shows of the answers. The files, and the code that each is about
-- (paths without a package are in packages/schema/src):
-- - Prelude: lists, texts and tests that the others share. Prelude/Hex is the hexadecimal text that
--   middleware/auth.ts and endpoints/fleet/deviceRegister.ts write; Prelude/Text counts a text's length
--   as JavaScript does, in UTF-16 units.
-- - Platform: the services. Http has a handler's answers and exceptions as values, the awaiting of
--   promises that may be rejected, Promise.all, and app.onError of index.ts. Database, Kv and Bucket are
--   interfaces: a record of the operations that the handlers call and of the laws that SQL, Workers KV
--   and R2 document. Memory fills the three with lists, for the instances of theorems.
-- - Auth: middleware/auth.ts. `clerk_auth` is the middleware, `bearer` its reading of the header,
--   `token_cache_key` tokenCacheKey, `verified` the part after a cache miss, `authenticated` the
--   cached path before it.
-- - Fleet: endpoints/fleet. `device_register`, `device_delete`, `device_list` and `device_status` are the
--   handle methods of the four classes, and `serve` is fleetRouter.
-- - Ddns: endpoints/ddns. `config_read`, `config_update` and `force_update` are the three handlers;
--   `existing` and `write_config` are the two queries of an update, apart, so that two requests can be
--   interleaved.
-- - VpnClient: endpoints/vpn-client, `connect` and `disconnect`, and the bounds of a new profile.
-- - Qos: endpoints/qos, `config_read` and `config_update`.
-- - Reports: endpoints/reports, `report_generate`, `report_read`, `report_delete` and `report_list`.
-- - Ips: endpoints/ips, the rules and the alerts; Ips/Settings has the configuration and Ips/Categories the
--   modes of the categories, which are JSON texts in KV.
-- - DeviceConfig: endpoints/wan, lan and dhcp, the read and the update of each (`wan_config_read`,
--   `wan_config_update` and so on), which answer constants for now.
-- - Nat: endpoints/nat, `nat_rule_create`, `nat_rule_update`, `nat_rule_delete` and `nat_rule_list`, which keep
--   no rule.
-- - Wifi: endpoints/wifi, `wifi_radios_read`, `wifi_radios_update`, `wifi_networks_read` and
--   `wifi_networks_update`, which keep nothing either.
-- - Routes: the routes that index.ts and endpoints/*/router.ts register, and the first of them that fits a
--   method and the segments of a path. Routes/Segments splits a path.
-- - Client: packages/portal-astro/src/lib/api/client.ts. `call_request` has the method and the path of every
--   function of createApiClient, with encodeURIComponent in Client/Uri. Client/Reach and Client/Arrival meet
--   them with Routes. Client/Answers is what `request` sends and what it makes of an answer, and
--   Client/Session is a whole call, through clerkAuth. packages/portal/src/api.ts has the same `request`.
-- - Composables: packages/portal-astro/src/composables. Composables/Uses has what each of eleven composables
--   calls; Composables/Screen is the state of any of them, with its calls in flight, and `step` what an event
--   does to it. A promise settles whenever and however it may.
-- - Hooks: `useDeviceStatus` of packages/portal/src/hooks/useDevices.ts, with the effects of React.
-- - Toasts: packages/portal-astro/src/composables/useToast.ts. An identifier is a parameter of `show_toast`,
--   and a timer fires whenever it may.
-- - Selection: packages/portal-astro/src/composables/useSelectedDevice.ts in one tab, with the watchers of Vue,
--   which are called at a flush, and the item in localStorage. Other tabs do not write it.
-- - Onboarding: components/onboarding of the portal. Onboarding/Form is ConfigForm.vue, Onboarding/Flow the
--   wizard with its pages and the registration in flight, and Onboarding/Routers endpoints/onboarding.
-- - Routing and VpnServer: the handlers of endpoints/routing and endpoints/vpn-server.
-- - LogsPage: components/monitoring/LogsApp.vue with its export, and LogsPage/Csv a reader of such files.
-- - DevicesPage: the page of packages/portal/src/App.tsx that lists, registers and deletes devices, as a
--   state machine over clicks and settlements.
-- - Dashboards: endpoints/dashboards. Dashboards/Network and Dashboards/Traffic are the constants of
--   dashboardRead.ts, Dashboards/Listed the two handlers.
-- - NatPage: components/security/NATRulesApp.vue of the portal, over Composables. Each call in flight has the
--   task of the handler that awaits it; any handler may be called at any time, also where a button is hidden.
-- - Polling: the portal's packages/portal-astro/src/composables/usePolling.ts as a state machine: `step`
--   is what an event does to a page, `run` a history of events in any order.
-- - Format: `format_uptime` is formatUptime of packages/portal-astro/src/lib/utils/format.ts. Format/Sizes has
--   formatFileSize of components/monitoring/ReportList.vue and formatBytes of components/network/WanStatus.vue
--   there; a size in a unit is a fraction, since the source divides by powers of two.
--
-- A handler is a function from the state of the services to an outcome and the state it leaves: it
-- returns an answer with its status, or throws. A rejected promise of a query leaves the table as it was
-- and throws; a rejected write to KV or R2 may come after others that were made, which stay. A request
-- that its schema refuses throws before the handler's body. Times are natural numbers: what a handler
-- gets is Date.now(), in milliseconds, save for Auth and Fleet's reads, where it is a second. Only the
-- loops of Format/Sizes take fuel, and as much as there are units is enough, as is proved; all else is total.
--
-- Parameters of the definitions are the services, SHA-256, Clerk's verifyToken, crypto.randomUUID and
-- getRandomValues, JSON.parse and JSON.stringify, URLSearchParams, toFixed, toLowerCase, toLocaleString, the
-- text of a number, and Hono's router: what it decodes, and that it dispatches a path to the first route
-- that fits the decoded segments.
-- A theorem that needs more of them than their interface says it in a hypothesis: that the digest has no
-- collisions, or that a JSON text is read back.
-- A KV read is taken to see the last write; KV's delay between places is not modelled. The cache write of
-- clerkAuth, which is not awaited, is taken to come before the handlers.
--
-- Not modelled: the endpoints that Chanfana derives from a table (VPN profiles, QoS rules, tasks,
-- billing), whose code is not in the repository, nor is the router of /logs; the client that is generated
-- from an OpenAPI document, which has none of the functions that the composables call, so that these are
-- taken to call those of lib/api/client.ts; the text of the SQL queries beyond the rows and the order that
-- they name; the other composables, hooks and pages of the portals; the sandbox; the agent and the Rust
-- worker.
pub mod Prelude
pub mod Platform
pub mod Auth
pub mod Fleet
pub mod Ddns
pub mod VpnClient
pub mod Qos
pub mod Reports
pub mod Ips
pub mod DeviceConfig
pub mod Nat
pub mod Wifi
pub mod Routes
pub mod Client
pub mod Composables
pub mod Hooks
pub mod Toasts
pub mod Selection
pub mod Polling
pub mod Format
pub mod Onboarding
pub mod NatPage
pub mod Dashboards
pub mod DevicesPage
pub mod LogsPage
pub mod Routing
pub mod VpnServer
