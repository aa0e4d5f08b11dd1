-- ===== src/Lib.antt =====
-- generic-text-gateway: an SMS gateway between USB modems and HTTP clients.
--
-- The server (server/gtg_server) reads messages from a modem, numbers them in a hub, offers them to
-- the subscribers of an event stream and sends the texts that clients post; the client
-- (client/gtg_client) follows the stream and relays its messages.
--
-- Which file models which part:
--   Api         server/gtg_server/api.py: a request's body and credential (Api itself, Access,
--               Credentials), what a principal may read (Messages) or have sent (Sending, Accepted), the routes (Routes,
--               Guarded), what answers do not tell (Isolation), and the number of streams (Streams).
--               Api/Submission joins `_send_message` to the worker's `_do_send`.
--   At          server/gtg_server/modem/at.py: the lines of the serial port and `execute`.
--   Auth        server/gtg_server/auth.py: users, tokens, passwords, the backoff and the rate limit.
--   Codec       server/gtg_server/modem/sms_codec.py, the PDUs of SMS: the GSM alphabet (Alphabet),
--               the packing of septets (Septets), UTF-16-BE (Utf16), numbers (Address, Recipient),
--               the division of long texts (Split), `build_submit_pdus` (Submit) and
--               `decode_deliver` (Deliver).
--   Config      server/gtg_server/config.py and `Config` of client/gtg_client/config.py: the layers of
--               the settings (Layers), and the addresses to listen at (Binds), with
--               `check_plaintext_binds` of server/gtg_server/api.py.
--   FileStore   server/gtg_server/store.py: the names of files, writes that may fail, replay, history.
--   Hub         server/gtg_server/hub.py: the hub's state and methods, and the bounded queue of a
--               subscriber (Queue).
--   Inbox       `_process_pdu` and `_publish` of server/gtg_server/modem/worker.py: from the PDU to the
--               hub, and what is deleted from the modem.
--   Outbox      server/gtg_server/outbox.py: the records of outbound messages; Outbox/Sending is
--               `_do_send` and `_send_one` of server/gtg_server/modem/worker.py.
--   Receive     server/gtg_server/modem/receive.py: the lines of a modem and the assembler of parts.
--   Relay       client/gtg_client/state.py and `_handle_event` of client/gtg_client/relay.py: the
--               journal of the client and its events, with broken writes, crashes and restarts.
--   SendApi     client/gtg_client/sendapi.py up to the call of `_forward`, and `normalize_targets` of
--               client/gtg_client/config.py.
--   Sim         server/gtg_server/modem/sim.py, the choice of storage and notifications of
--               server/gtg_server/modem/receive.py, and, in Sim/Pins, `_unlock_sim` and `_do_pin` of
--               server/gtg_server/modem/worker.py.
--   Stream      the event stream between `_subscribe` of server/gtg_server/api.py and `SSEReader` of
--               client/gtg_client/relay.py.
--   Trust       client/gtg_client/pinned_http.py: how the client verifies the server.
--   Recent      lists that are cut to their newest items, as Inbox and Relay keep them.
--   Common      the numbers, lists, texts, dictionaries and sorting that the parts share.
--
-- How the parts interact: Api takes what Auth lets in, asks Codec what a text costs, and puts records
-- into Outbox, which the worker sends by Codec's PDUs over At. At's lines go to Sim, Receive and Inbox,
-- which publishes to Hub; Hub saves to FileStore and feeds Stream, whose events Relay takes at the other
-- end of a connection that Trust has verified. SendApi asks Api in turn.
--
-- How state and operations correspond to the code: a record stands for the attributes of an object,
-- and a method is a function from the record to its result and the new record. What the code does
-- under a lock is one step. An exception is `none`. A text is the list of its code points, `bytes`
-- a list of numbers, a `dict` an association list (Common/Dict).
--
-- Bounds and fuel: the inner loop of `pack_septets` (`drain`) runs on a fuel that is the shift
-- itself, and it takes eight from it in each turn, so the fuel never ends the loop early. The loop of
-- `execute` (`collect`) runs on one more than the octets that the port can still give, and each turn
-- takes a line of them; a deadline is the number of reads that it leaves. All other loops are
-- structural. A text to be sent has at most 5000 characters, the bound of the API.
--
-- What is not modelled: what Unicode says beyond ASCII (`str.isdigit`, `int` of a digit) is the
-- record `DigitTable`, with what the documentation of Python promises, and other functions of its
-- library (`int`, `str.lower`, `json.loads`, Base64, UTF-8, digests) are parameters; the callback for
-- unsolicited lines, `_after_sim_ready`, the scans of the storage and the main loop of the worker; the
-- reconnections of the client and its calls of Home Assistant but for the attempts of an event; mode
-- switching and the discovery of modems, certificates and command lines; threads and locks; clocks,
-- sockets, serial lines, TLS and files themselves. An `OSError` of the serial port ends `_do_send` with
-- its record in the state `sending`, and `_process_pdu` with an exception; what the main loop does then
-- is not modelled, and the port of At does not raise it.
pub mod Api
pub mod At
pub mod Auth
pub mod Codec
pub mod Common
pub mod Config
pub mod FileStore
pub mod Hub
pub mod Inbox
pub mod Outbox
pub mod Receive
pub mod Recent
pub mod Relay
pub mod SendApi
pub mod Sim
pub mod Stream
pub mod Trust
