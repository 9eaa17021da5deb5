-- ===== src/Hardwaremgr/Config.antt =====
-- hardwaremgr/include/Configure/Config.hpp: the names of services, objects and interfaces.
use raspberrypiservice.Prelude.{String}

abbrev pub hardwaremgr_service_name : String
hardwaremgr_service_name = "com.example.hardwaremanager"

abbrev pub hardwaremgr_object_path : String
hardwaremgr_object_path = "/com/example/hardwaremanager"

abbrev pub hardwaremgr_interface_name : String
hardwaremgr_interface_name = "com.example.hardwaremanager.interface"

abbrev pub hardwaremgr_signal_name : String
hardwaremgr_signal_name = "HardwareSignal"

abbrev pub hardwaremgr_agent_object_path : String
hardwaremgr_agent_object_path = "/com/example/hardwaremanager/agent"

abbrev pub bluez_service_name : String
bluez_service_name = "org.bluez"

abbrev pub bluez_object_path : String
bluez_object_path = "/org/bluez"

abbrev pub bluez_adapter_interface : String
bluez_adapter_interface = "org.bluez.Adapter1"

abbrev pub bluez_device_interface : String
bluez_device_interface = "org.bluez.Device1"

abbrev pub bluez_agent_manager_interface : String
bluez_agent_manager_interface = "org.bluez.AgentManager1"

abbrev pub bluez_agent_interface : String
bluez_agent_interface = "org.bluez.Agent1"

abbrev pub bluez_error_rejected : String
bluez_error_rejected = "org.bluez.Error.Rejected"

abbrev pub dbus_object_manager_interface : String
dbus_object_manager_interface = "org.freedesktop.DBus.ObjectManager"

abbrev pub dbus_properties_interface : String
dbus_properties_interface = "org.freedesktop.DBus.Properties"

abbrev pub ofono_service_name : String
ofono_service_name = "org.ofono"

abbrev pub ofono_manager_interface : String
ofono_manager_interface = "org.ofono.Manager"

abbrev pub ofono_modem_interface : String
ofono_modem_interface = "org.ofono.Modem"

abbrev pub ofono_phonebook_interface : String
ofono_phonebook_interface = "org.ofono.Phonebook"

abbrev pub ofono_contact_interface : String
ofono_contact_interface = "org.ofono.Contact"

abbrev pub ofono_voicecall_manager_interface : String
ofono_voicecall_manager_interface = "org.ofono.VoiceCallManager"

abbrev pub ofono_voicecall_interface : String
ofono_voicecall_interface = "org.ofono.VoiceCall"

abbrev pub ofono_call_history_interface : String
ofono_call_history_interface = "org.ofono.CallHistory"
