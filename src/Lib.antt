-- ===== src/Lib.antt =====
-- Verification library for mcp-venus-os, the MCP server that reads and controls a Victron Venus OS
-- installation over its MQTT gateway.
--
-- The program's parts, and the files that model them. Paths are from the repository's root.
--
-- src/mcp_venus_os/hardware_contracts.py: Hardware.antt has the contract records and the model
-- validator `validate_scope`; Hardware/Validation.antt has the gate `validate_hardware_write` with
-- its loop over the identity probes (`check_probes`) and its tests on the value (`check_value`). The
-- callback `read` is an argument. An error string is a constructor of `Problem`. Hardware/Patterns.antt has the
-- field patterns, which come before the validator.
-- src/mcp_venus_os/config.py: Config.antt has the settings as records, the defaults, and the
-- validators. Reading the environment is pydantic-settings' work and is left out.
-- src/mcp_venus_os/safety.py: Safety.antt has the checks and Safety/Operation.antt
-- `validate_write_operation`, which calls them in their order; Safety/Confirmations.antt has `ConfirmationManager`. `re.search` is the
-- parameter `searches`, the UUID of a request is an argument, and a message is a constructor of
-- `Reason` with the values that it shows. Logging is left out.
-- src/mcp_venus_os/capabilities.py: Capabilities.antt. src/mcp_venus_os/telemetry.py:
-- Telemetry.antt; paho's `topic_matches_sub` is the parameter `matches`, and which code points from
-- 128 on are digits is the parameter `other_digit`.
-- src/mcp_venus_os/mqtt_client.py: Mqtt.antt has the state `Client` of `MQTTClient`. A method is a
-- function of that state under its lock; what it does outside is a list of effects.
-- Mqtt/Session.antt has the session and socket callbacks, Mqtt/Messages.antt the path of a message
-- through the inbox to the cache, Mqtt/Callbacks.antt registration and delivery, Mqtt/Cache.antt the
-- reads, and Mqtt/Reachable.antt the steps of all threads in any order, with the stops and starts that the
-- lifecycle lock keeps apart. `loads` decodes UTF-8 JSON,
-- `sample_socket` reads kernel metadata; transports, sockets and callbacks are numbered, the portal is
-- configured, and a clock reading is a number of units of 2^-1074 s with exact differences.
-- Mqtt/Registers.antt states what the cache promises: a register for each topic.
-- Mqtt/Lifecycle.antt has connect, the start and the stop of a transport, and publish;
-- Mqtt/Feed.antt the read feed, where `look i` is what its i-th look at the client finds, and
-- Mqtt/Feed/Draining.antt several maintenances of it, each a `Tick`;
-- Mqtt/Devices.antt the device list, where `parse_int` is `int` of a text; Mqtt/Worker.antt the loop of
-- the worker thread over its rounds, which says what it does in which order. The settings that paho's
-- client is given are not modelled.
-- src/mcp_venus_os/server.py: the write path. Write.antt has `_values_match` and the equality of
-- contracts, Write/Verify.antt `_mqtt_write_and_verify`, Write/Tools.antt `_confirm_gate`,
-- `_mode_code` and the tools set_inverter_mode, set_charge_current_limit and set_soc_limit. What a
-- write observes is a sequence of moments: the settings, the clock, and what the client's reads
-- return; between two moments anything may change, and the reads of one run of the gate are those of
-- one moment. Write/Client.antt takes the moments from the client of Mqtt.antt. The loop runs on
-- fuel; with the sleep of 0.2 s, 26 rounds are enough for its five seconds. `float` of a text is the
-- parameter `float_of_text`, whether `_mqtt_ready` returns is the argument `ready`. Readings.antt has
-- the names of the VE.Bus codes in a reading.
-- src/mcp_venus_os/ssh_client.py: Ssh/Keys.antt has the key policy and `_connect_kwargs`,
-- Ssh/Connection.antt `_ensure_conn`, `_close_connection` and `run`, Ssh/Operations.antt and
-- Ssh/Packages.antt the operations, and Ssh/Tools.antt the tools of server.py that call them. A `Device`
-- carries the configuration, the reading of keys and a sequence of moments, one for each operation that
-- waits for the world: whether the connection is closed, what a connect and a command answer, and
-- what the probe finds. Every command that is sent is on a list. An exception is a value of `Exn`, and
-- an operation whose code does not catch it has no reply. Ssh/Single.antt has the steps of all tasks
-- that share the client, in any order.
-- src/mcp_venus_os/server.py, the read tools: Reads.antt has `_collect_mqtt` and `_pv_vxi_fallback`,
-- Reads/Readers.antt `_read_all_instances`, `_instance_device_type` and the four read tools over MQTT,
-- Reads/Tanks.antt `get_tank_level` and `get_control_state`, Reads/Registry.antt
-- `_apply_capability_tools`. `look i` is the client and `now i` the clock that the i-th read of a tool
-- finds. Value/Arithmetic.antt has the sum, the product and the rounding of floats, the results
-- correctly rounded to 53 binary digits. Reads/Ready.antt has `_mqtt_ready`, whose loop
-- runs on fuel: at a quarter of a second for a round, 82 rounds are enough for its 20 seconds.
-- Reads/Backends.antt has the choice between the two backends and the D-Bus branches of the tools. The
-- lifespan, the bearer token and the tools mqtt_connect, mqtt_disconnect and mqtt_subscribe are not
-- modelled: they hand settings to FastMCP, or pass on the outcome of the client.
-- src/mcp_venus_os/dbus_client.py: Dbus.antt has the client and `_get_property`, Dbus/Getters.antt the
-- four getters as `do` blocks, Dbus/Listing.antt the device list. `answer calls c` is what the bus
-- answers to a call after the calls before it.
-- src/mcp_venus_os/tls_policy.py: Tls.antt has the check of the verified chain and the handshake
-- around it, Tls/Context.antt the policy on a context. Certificates are the parameters `Der` and `Pem`.
-- src/mcp_venus_os/socket_diagnostics.py: Sockets.antt. The platform and the kernel's answers are the
-- parameters `Platform` and `Socket`; Mqtt.antt takes a sample as its parameter `sample_socket`.
--
-- Python values are `Payload` of Value.antt. A float is an integral number of units of 2^-1074, the
-- least positive double, or an infinity or nan, so that the comparisons of ints and floats are
-- exact; `math.isfinite` of an int is an error from 2^1024 - 2^970 on.
--
-- Prelude.antt and the files below it hold what the others share: Boolean tests, lists, Python's
-- dictionaries as association lists, operations on texts, and signed integers.
--
-- Not modelled: src/mcp_venus_os/__main__.py, the lifespan and the bearer token of server.py, which only start the
-- server; the release tooling in scripts/, nearly all of it a vendored toolkit, and the rest of it
-- scripts that read files and run commands; the fuzz targets and the tests. Where the program meets a
-- library (paho, asyncssh, dbus, cryptography, pydantic-settings, the kernel), what the library
-- answers is a parameter, and its settings and log messages are left out. paho's index may visit the
-- matching patterns in any order; Mqtt/Callbacks/Visits.antt is about that.
pub mod Capabilities
pub mod Config
pub mod Dbus
pub mod Hardware
pub mod Mqtt
pub mod Prelude
pub mod Readings
pub mod Reads
pub mod Safety
pub mod Sockets
pub mod Ssh
pub mod Telemetry
pub mod Tls
pub mod Value
pub mod Write
