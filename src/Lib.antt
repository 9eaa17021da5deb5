-- ===== src/Lib.antt =====
-- A model of the services of a Raspberry Pi: a core manager (coremgr/), a hardware manager
-- (hardwaremgr/), a record manager (recordmgr/) and what they share (common/).
--
-- Clients talk to the core manager by JSON over a web socket. A message becomes an event in a
-- queue, and the notifications that the other managers send over D-Bus become events in the same
-- queue. One main thread takes the events and gives each to its handler. A handler reads and
-- writes the state that clients see, sends a command to another manager, or broadcasts a message;
-- a request for pairing also starts a timer, whose thread pushes an event when it expires.
--
-- The hardware manager turns a command into a call of BlueZ or oFono, and the signals of these two
-- into notifications to the core manager. Its main thread takes the commands from a queue, and its
-- Bluetooth thread dispatches the messages of the two services; a third thread reads a sensor.
--
-- The files, and the code that they translate:
--   Prelude: names of the libraries, tests on numbers, lists, integers.
--   Common/Define, Common/DbusData: common/include/Define.hpp and common/include/DBus/DBusData.hpp.
--   Common/Event, Common/EventQueue: common/include/Event/Event.hpp and
--     common/src/Event/EventQueue.cpp; Common/Stdlib is `std::stoi` and
--     `std::to_string`.
--   Coremgr/EventTypeId, Coremgr/StateView, Coremgr/Core: the event types, the state that clients
--     see (coremgr/include/Configure), and the state of the main thread with its effects.
--   Coremgr/Timer: coremgr/src/Thread/Timer.cpp.
--   Coremgr/HardwareHandler, Coremgr/RecordHandler, Coremgr/SqliteDbHandler:
--     coremgr/src/Controller, one function per handler, with the handler's name.
--   Coremgr/MainWorker, Coremgr/DbusReceiver, Coremgr/WebSocket: the files of coremgr/src/Thread,
--     with coremgr/src/Util/JsonHelper.cpp.
--   Coremgr/WebSocketSession: the class of that name in coremgr/src/WS/WebSocketServer.cpp.
--   Recordmgr/AlsaHelper, Recordmgr/RecordWorker: recordmgr/src/Util/AlsaHelper.cpp and
--     recordmgr/src/Thread/RecordWorker.cpp, the thread cut into steps between which the calls of
--     the main thread fall; Recordmgr/MainWorker: recordmgr/src/Thread/MainWorker.cpp and
--     recordmgr/src/Thread/DBusReceiver.cpp.
--   Common/Dbus: common/src/DBus/ISenderFactory.cpp and DBusSenderBase.cpp (Sender),
--     common/src/Thread/DBusReceiverBase.cpp (Receiver); Libdbus is what they use of libdbus, and
--     Memory a bus that meets it. Common/Text is what the code uses of `std::string`.
--   Coremgr/CmSenderFactory, Hardwaremgr/HmSenderFactory, Recordmgr/RmSenderFactory: the files of
--     these names in src/DBus of each manager.
--   Hardwaremgr/Hardware: the state of hardwaremgr/include/BT and what is sent; Message: the values
--     of a message; Config: the constants of hardwaremgr/include/Configure/Config.hpp.
--   Hardwaremgr/BluezDbus, OfonoDbus, BluetoothAgent: the files of hardwaremgr/src/BT.
--   Hardwaremgr/BluetoothWorker, MainWorker, DbusReceiver: the files of hardwaremgr/src/Thread.
--   Hardwaremgr/Gpio: hardwaremgr/src/Model/GPIO.cpp, with the round of
--     hardwaremgr/src/Thread/MonitorWorker.cpp.
--   Hardwaremgr/Notifications: an invariant of what the Bluetooth threads send.
--   Services: what one manager sends against what another makes of it. Services/Signals goes through
--     the factories and libdbus; in Services and Services/Notifications the bus delivers a command
--     and its data as they were sent.
--
-- State is passed explicitly: a handler is a function of `Core` or `Hardware`, which list what was
-- sent and broadcast. A null pointer is `none`, an `unordered_map` a list of its elements, and an
-- exception `none`, or a step that ends the thread. A call that holds a mutex throughout is one
-- step; the two Bluetooth threads hold the mutex of `BluezDBus` for a whole message or event, up
-- to the calls of `BluetoothAgent`, so that their runs are lists of events and messages.
--
-- BlueZ and oFono are a parameter, `Bus`: any function from the calls made so far and a call to
-- its answer. libdbus is a parameter, `Libdbus`, with its documented laws where a theorem needs
-- them. The JSON library is a parameter, as are the conversion of a text to a float (a 32-bit
-- pattern) and back, the division of a float, its conversion to an `int`, the files that are read,
-- and what the database answers. A reply to a call of the agent can always be made.
--
-- The search for a free timer id runs on `int32_max` units of fuel. `find_free_total` shows that
-- this is enough whenever the table has room, which the code tests before it searches.
--
-- Not modelled: logging, the network, the set-up of the connections, the waits and polls of the
-- threads but for the recording thread's wait on its condition variable, the result of a send,
-- which no handler reads, the thread pool and the database of the core manager, its web socket
-- server but for a session's writes, the filter of recorded files, and the construction of the
-- objects.
pub mod Prelude
pub mod Common
pub mod Coremgr
pub mod Recordmgr
pub mod Hardwaremgr
pub mod Services
