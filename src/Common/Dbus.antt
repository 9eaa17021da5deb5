-- ===== src/Common/Dbus.antt =====
-- common/src/DBus and common/src/Thread/DBusReceiverBase.cpp: what libdbus does (`Libdbus`), the
-- numbers of the commands (`Values`), sending (`Sender`) and receiving (`Receiver`) a signal.
pub mod Values
pub mod Libdbus
pub mod Sender
pub mod Receiver
pub mod RoundTrip
pub mod Memory
