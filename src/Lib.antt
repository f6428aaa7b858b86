-- ===== src/Lib.antt =====
-- The browser side of xLuCI2, the web interface of a router: the logic behind its pages, in the
-- files of luci2-base/htdocs/luci2. The pages talk to the router by JSON-RPC (rpc.js); they read
-- and write the router's configuration through a store that keeps the edits apart from what was
-- loaded (uci.js); form fields are checked by data types (cbi.js) on the parsers of luci2.js;
-- network.js, wireless.js and firewall.js present the stored sections and the state of the router
-- as devices, interfaces, radios, zones and forwardings; session.js says what the user may write.
--
-- The parts and their files:
-- - Uci: uci.js. Store has the state of the store (`values`, `creates`, `changes`, `deletes`,
--   `reorder`, `newidx`) and the sections with their attributes; Access has `get`, `set`, `unset`
--   and `remove`; Create has `createSID` and `add`; Sections has `sections` and `get_first`,
--   `set_first`, `unset_first`; Order has `swap` and `reorderSections`; Save has `load`, `unload`
--   and `save`, the last as the list of the remote calls it makes; Apply has `apply` with its
--   loop of confirmations. Edits has sequences of edits, and Save/Router what is assumed of the
--   router's uci calls: an addition makes a section, a set stores the given options in its way,
--   which keeps texts and lists that are not empty and drops empty lists, a deletion takes them
--   away.
-- - Rpc: rpc.js. Json has the values, Reply what the callback does with one reply, Batch the
--   table of requests, the functions that `declare` returns, `batch`, `flush` and the loop of the
--   callback.
-- - Session: `aclCache` and `hasACL` of session.js with `readable` and `writable` of uci.js.
-- - Text, Address and Convert: luci2.js. Text has the texts as lists of character codes, with the
--   classes of characters that the regular expressions name; Address has `parseIPv4`, `parseIPv6`
--   and `isNetmask`; Convert has `toArray` and `toObject`; `filterArray` is in Uci/Store.
-- - Hash, Color and Translate: `getHash` and `setHash`, with what the browser makes of the
--   fragment as a parameter, `toClassName` and `toColor`, and `tr`, `trp`, `trc`, `trcp` of
--   luci2.js.
-- - Cbi: the forms of cbi.js. Js has the conversions of JavaScript that they use, Run how a save
--   ends, which an exception of a field that was not rendered aborts, Field the objects of fields
--   with their place in store and document, Value what a field reads and saves, where the save of
--   a view or of a class that has its own is a function of the field, Devices the save of
--   `DeviceList` with `setDevices` of network.js, Form the fields and tabs of a section, Depends
--   `depends` and `toggle`, Tree the sections with their subsections on the store, Map the whole
--   form with `load`, `save` and `send`, Handlers what the buttons do.
-- - Validation: the types of cbi.js, each a test on a text: Numbers, Addresses, Names, and in
--   Combined those that take others as arguments.
-- - Network: network.js. Objects has the devices and interfaces with their lookups, Queries their
--   sorted lists, Alias has `resolveAlias`, Attach has `removeFromInterface` and
--   `attachToInterface`; Load has the callbacks that build the objects from the configuration and
--   the answers of the router, and in Tables `load` and the refreshes that run them, Status the
--   questions to a single object.
-- - Wireless: wireless.js. Cache has `loadCache` with its count of answers, Status
--   `getWirelessStatus` and the lists of stations, Format `formatEncryption`.
-- - Firewall: the zones of firewall.js on the store of Uci; Forwards has the forwardings and what
--   the form of a zone reads and saves.
-- - Prelude: the names, numbers, tests, lists and dictionaries that the parts share.
-- - Tests: runs at concrete inputs, and the results applied to them.
--
-- How the code is read: an object used as a map is a list of keys with values in the order of
-- their first assignment, also for keys that look like numbers, which JavaScript lists first;
-- `undefined` is `none`; a key has no value where the object has none, so the keys that every
-- JavaScript object inherits are left out. An operation takes the state and returns the new one.
-- Two sections that the code shares by reference are one entry of the state, and what the code
-- changes through a reference is written back to it. What jQuery reads of an element is a value
-- or `undefined`; the `null` of a list without a chosen entry is left out.
--
-- Bounds and fuel: `createSID` draws names until one is free; the names are a parameter, a
-- function from the number of the draw, and the fuel is the number of draws, which is enough if
-- one of these is free. The loop of `resolveAlias` needs more fuel than there are devices, since
-- it stops at a device that it has seen. Numbers are natural numbers; the two numbers of a group
-- of an IPv6 address are those of JavaScript for groups of up to nine digits, since `>> 0` wraps
-- from the tenth digit on.
--
-- Not modelled: the transport (ajax calls and their timeouts) and the answers of the router,
-- which are arguments; the messages that the validators leave and the types on floating-point
-- numbers; the reading of the code of a type with its arguments; the document tree: what jQuery
-- reads of it is an argument of the forms of cbi.js, whose drawing is left out, with ui.js; the
-- views, the handlers of protocols, and the scripts of other projects.
pub mod Address
pub mod Cbi
pub mod Color
pub mod Convert
pub mod Firewall
pub mod Hash
pub mod Network
pub mod Prelude
pub mod Rpc
pub mod Session
pub mod Tests
pub mod Text
pub mod Translate
pub mod Uci
pub mod Validation
pub mod Wireless
