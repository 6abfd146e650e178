-- ===== src/Cosem/Registry.antt =====
-- The concrete classes of include/dlms/cosem, named, each with the state of its objects and the table
-- of the cells that its attributes are. The tables say what the code does, which is not always what
-- the comments above the classes say.
pub mod Laws
use dlms_cosem_cpp.Base.{ℕ, List, []}
use dlms_cosem_cpp.Cosem.Object.{CosemClass}
use dlms_cosem_cpp.Cosem.Object.Store.{Cell}
use dlms_cosem_cpp.Cosem.Metering.Data.{
  Data, class as data_class, cells as data_cells, unread as data_unread,
}
use dlms_cosem_cpp.Cosem.Metering.Register.{
  Register, class as register_class, cells as register_cells, unread as register_unread,
}
use dlms_cosem_cpp.Cosem.Metering.ExtendedRegister.{
  ExtendedRegister, class as extended_register_class, cells as extended_register_cells,
  unread as extended_register_unread,
}
use dlms_cosem_cpp.Cosem.Metering.DemandRegister.{
  DemandRegister, class as demand_register_class, cells as demand_register_cells,
  unread as demand_register_unread,
}
use dlms_cosem_cpp.Cosem.Metering.MaximumDemand.{
  MaximumDemand, class as maximum_demand_class, cells as maximum_demand_cells,
  unread as maximum_demand_unread,
}
use dlms_cosem_cpp.Cosem.Metering.ProfileGeneric.{
  ProfileGeneric, class as profile_generic_class, cells as profile_generic_cells,
  unread as profile_generic_unread,
}
use dlms_cosem_cpp.Cosem.Metering.RegisterMonitor.{
  RegisterMonitor, class as register_monitor_class, cells as register_monitor_cells,
  unread as register_monitor_unread,
}
use dlms_cosem_cpp.Cosem.Schedule.Clock.{
  Clock, class as clock_class, cells as clock_cells, unread as clock_unread,
}
use dlms_cosem_cpp.Cosem.Schedule.ClockControl.{
  ClockControl, class as clock_control_class, cells as clock_control_cells,
  unread as clock_control_unread,
}
use dlms_cosem_cpp.Cosem.Schedule.ActivityCalendar.{
  ActivityCalendar, class as activity_calendar_class, cells as activity_calendar_cells,
  unread as activity_calendar_unread,
}
use dlms_cosem_cpp.Cosem.Schedule.SpecialDaysTable.{
  SpecialDaysTable, class as special_days_table_class, cells as special_days_table_cells,
  unread as special_days_table_unread,
}
use dlms_cosem_cpp.Cosem.Schedule.TariffPlan.{
  TariffPlan, class as tariff_plan_class, cells as tariff_plan_cells, unread as tariff_plan_unread,
}
use dlms_cosem_cpp.Cosem.Schedule.TariffTable.{
  TariffTable, class as tariff_table_class, cells as tariff_table_cells,
  unread as tariff_table_unread,
}
use dlms_cosem_cpp.Cosem.Link.SerialPort.{
  SerialPort, class as serial_port_class, cells as serial_port_cells, unread as serial_port_unread,
}
use dlms_cosem_cpp.Cosem.Link.InfraredSetup.{
  InfraredSetup, class as infrared_setup_class, cells as infrared_setup_cells,
  unread as infrared_setup_unread,
}
use dlms_cosem_cpp.Cosem.Link.Rs485Setup.{
  Rs485Setup, class as rs485_setup_class, cells as rs485_setup_cells, unread as rs485_setup_unread,
}
use dlms_cosem_cpp.Cosem.Link.LpSetup.{
  LpSetup, class as lp_setup_class, cells as lp_setup_cells, unread as lp_setup_unread,
}
use dlms_cosem_cpp.Cosem.Link.MbusClient.{
  MbusClient, class as mbus_client_class, cells as mbus_client_cells, unread as mbus_client_unread,
}
use dlms_cosem_cpp.Cosem.Link.MbusMaster.{
  MbusMaster, class as mbus_master_class, cells as mbus_master_cells, unread as mbus_master_unread,
}
use dlms_cosem_cpp.Cosem.Link.GprsModemSetup.{
  GprsModemSetup, class as gprs_modem_setup_class, cells as gprs_modem_setup_cells,
  unread as gprs_modem_setup_unread,
}
use dlms_cosem_cpp.Cosem.Link.AutoConnect.{
  AutoConnect, class as auto_connect_class, cells as auto_connect_cells,
  unread as auto_connect_unread,
}
use dlms_cosem_cpp.Cosem.Link.LorawanSetup.{
  LorawanSetup, class as lorawan_setup_class, cells as lorawan_setup_cells,
  unread as lorawan_setup_unread,
}
use dlms_cosem_cpp.Cosem.Link.NbiotSetup.{
  NbiotSetup, class as nbiot_setup_class, cells as nbiot_setup_cells, unread as nbiot_setup_unread,
}
use dlms_cosem_cpp.Cosem.Link.WisunSetup.{
  WisunSetup, class as wisun_setup_class, cells as wisun_setup_cells, unread as wisun_setup_unread,
}
use dlms_cosem_cpp.Cosem.Network.Ipv4Setup.{
  Ipv4Setup, class as ipv4_setup_class, cells as ipv4_setup_cells, unread as ipv4_setup_unread,
}
use dlms_cosem_cpp.Cosem.Network.MacAddressSetup.{
  MacAddressSetup, class as mac_address_setup_class, cells as mac_address_setup_cells,
  unread as mac_address_setup_unread,
}
use dlms_cosem_cpp.Cosem.Network.NtpSetup.{
  NtpSetup, class as ntp_setup_class, cells as ntp_setup_cells, unread as ntp_setup_unread,
}
use dlms_cosem_cpp.Cosem.Network.SmtpSetup.{
  SmtpSetup, class as smtp_setup_class, cells as smtp_setup_cells, unread as smtp_setup_unread,
}
use dlms_cosem_cpp.Cosem.Network.Route.{
  Route, class as route_class, cells as route_cells, unread as route_unread,
}
use dlms_cosem_cpp.Cosem.Network.PushSetup.{
  PushSetup, class as push_setup_class, cells as push_setup_cells, unread as push_setup_unread,
}
use dlms_cosem_cpp.Cosem.Device.AssociationLn.{
  AssociationLn, class as association_ln_class, cells as association_ln_cells,
  unread as association_ln_unread,
}
use dlms_cosem_cpp.Cosem.Device.SecuritySetup.{
  SecuritySetup, class as security_setup_class, cells as security_setup_cells,
  unread as security_setup_unread,
}
use dlms_cosem_cpp.Cosem.Device.DirectDisconnect.{
  DirectDisconnect, class as direct_disconnect_class, cells as direct_disconnect_cells,
  unread as direct_disconnect_unread,
}
use dlms_cosem_cpp.Cosem.Device.SensorManager.{
  SensorManager, class as sensor_manager_class, cells as sensor_manager_cells,
  unread as sensor_manager_unread,
}
use dlms_cosem_cpp.Cosem.Device.Ups.{
  Ups, class as ups_class, cells as ups_cells, unread as ups_unread,
}
use dlms_cosem_cpp.Cosem.Limiter.{Limiter}
use dlms_cosem_cpp.Cosem.Limiter.Class.{class as limiter_class, cells as limiter_cells}
use dlms_cosem_cpp.Cosem.ImageTransfer.{ImageTransfer}
use dlms_cosem_cpp.Cosem.ImageTransfer.Class.{
  class as image_transfer_class, cells as image_transfer_cells,
}
use dlms_cosem_cpp.Cosem.DisconnectControl.{DisconnectControl}
use dlms_cosem_cpp.Cosem.DisconnectControl.Class.{
  class as disconnect_control_class, cells as disconnect_control_cells,
}

pub data ClassName : Type 0 where
  data_object : ClassName
  register : ClassName
  extended_register : ClassName
  demand_register : ClassName
  maximum_demand : ClassName
  profile_generic : ClassName
  register_monitor : ClassName
  clock : ClassName
  clock_control : ClassName
  activity_calendar : ClassName
  special_days_table : ClassName
  tariff_plan : ClassName
  tariff_table : ClassName
  serial_port : ClassName
  infrared_setup : ClassName
  rs485_setup : ClassName
  lp_setup : ClassName
  mbus_client : ClassName
  mbus_master : ClassName
  gprs_modem_setup : ClassName
  auto_connect : ClassName
  lorawan_setup : ClassName
  nbiot_setup : ClassName
  wisun_setup : ClassName
  ipv4_setup : ClassName
  mac_address_setup : ClassName
  ntp_setup : ClassName
  smtp_setup : ClassName
  route : ClassName
  push_setup : ClassName
  association_ln : ClassName
  security_setup : ClassName
  direct_disconnect : ClassName
  sensor_manager : ClassName
  ups : ClassName
  limiter : ClassName
  image_transfer : ClassName
  disconnect_control : ClassName

abbrev pub State : ClassName → Type 0
State data_object = Data
State register = Register
State extended_register = ExtendedRegister
State demand_register = DemandRegister
State maximum_demand = MaximumDemand
State profile_generic = ProfileGeneric
State register_monitor = RegisterMonitor
State clock = Clock
State clock_control = ClockControl
State activity_calendar = ActivityCalendar
State special_days_table = SpecialDaysTable
State tariff_plan = TariffPlan
State tariff_table = TariffTable
State serial_port = SerialPort
State infrared_setup = InfraredSetup
State rs485_setup = Rs485Setup
State lp_setup = LpSetup
State mbus_client = MbusClient
State mbus_master = MbusMaster
State gprs_modem_setup = GprsModemSetup
State auto_connect = AutoConnect
State lorawan_setup = LorawanSetup
State nbiot_setup = NbiotSetup
State wisun_setup = WisunSetup
State ipv4_setup = Ipv4Setup
State mac_address_setup = MacAddressSetup
State ntp_setup = NtpSetup
State smtp_setup = SmtpSetup
State route = Route
State push_setup = PushSetup
State association_ln = AssociationLn
State security_setup = SecuritySetup
State direct_disconnect = DirectDisconnect
State sensor_manager = SensorManager
State ups = Ups
State limiter = Limiter
State image_transfer = ImageTransfer
State disconnect_control = DisconnectControl

abbrev pub class_of : (k : ClassName) → CosemClass (State k)
class_of data_object = data_class
class_of register = register_class
class_of extended_register = extended_register_class
class_of demand_register = demand_register_class
class_of maximum_demand = maximum_demand_class
class_of profile_generic = profile_generic_class
class_of register_monitor = register_monitor_class
class_of clock = clock_class
class_of clock_control = clock_control_class
class_of activity_calendar = activity_calendar_class
class_of special_days_table = special_days_table_class
class_of tariff_plan = tariff_plan_class
class_of tariff_table = tariff_table_class
class_of serial_port = serial_port_class
class_of infrared_setup = infrared_setup_class
class_of rs485_setup = rs485_setup_class
class_of lp_setup = lp_setup_class
class_of mbus_client = mbus_client_class
class_of mbus_master = mbus_master_class
class_of gprs_modem_setup = gprs_modem_setup_class
class_of auto_connect = auto_connect_class
class_of lorawan_setup = lorawan_setup_class
class_of nbiot_setup = nbiot_setup_class
class_of wisun_setup = wisun_setup_class
class_of ipv4_setup = ipv4_setup_class
class_of mac_address_setup = mac_address_setup_class
class_of ntp_setup = ntp_setup_class
class_of smtp_setup = smtp_setup_class
class_of route = route_class
class_of push_setup = push_setup_class
class_of association_ln = association_ln_class
class_of security_setup = security_setup_class
class_of direct_disconnect = direct_disconnect_class
class_of sensor_manager = sensor_manager_class
class_of ups = ups_class
class_of limiter = limiter_class
class_of image_transfer = image_transfer_class
class_of disconnect_control = disconnect_control_class

abbrev pub cells_of : ClassName → List (ℕ × Cell)
cells_of data_object = data_cells
cells_of register = register_cells
cells_of extended_register = extended_register_cells
cells_of demand_register = demand_register_cells
cells_of maximum_demand = maximum_demand_cells
cells_of profile_generic = profile_generic_cells
cells_of register_monitor = register_monitor_cells
cells_of clock = clock_cells
cells_of clock_control = clock_control_cells
cells_of activity_calendar = activity_calendar_cells
cells_of special_days_table = special_days_table_cells
cells_of tariff_plan = tariff_plan_cells
cells_of tariff_table = tariff_table_cells
cells_of serial_port = serial_port_cells
cells_of infrared_setup = infrared_setup_cells
cells_of rs485_setup = rs485_setup_cells
cells_of lp_setup = lp_setup_cells
cells_of mbus_client = mbus_client_cells
cells_of mbus_master = mbus_master_cells
cells_of gprs_modem_setup = gprs_modem_setup_cells
cells_of auto_connect = auto_connect_cells
cells_of lorawan_setup = lorawan_setup_cells
cells_of nbiot_setup = nbiot_setup_cells
cells_of wisun_setup = wisun_setup_cells
cells_of ipv4_setup = ipv4_setup_cells
cells_of mac_address_setup = mac_address_setup_cells
cells_of ntp_setup = ntp_setup_cells
cells_of smtp_setup = smtp_setup_cells
cells_of route = route_cells
cells_of push_setup = push_setup_cells
cells_of association_ln = association_ln_cells
cells_of security_setup = security_setup_cells
cells_of direct_disconnect = direct_disconnect_cells
cells_of sensor_manager = sensor_manager_cells
cells_of ups = ups_cells
cells_of limiter = limiter_cells
cells_of image_transfer = image_transfer_cells
cells_of disconnect_control = disconnect_control_cells

-- The attributes that a class lists and does not read.
abbrev pub unread_of : ClassName → List ℕ
unread_of data_object = data_unread
unread_of register = register_unread
unread_of extended_register = extended_register_unread
unread_of demand_register = demand_register_unread
unread_of maximum_demand = maximum_demand_unread
unread_of profile_generic = profile_generic_unread
unread_of register_monitor = register_monitor_unread
unread_of clock = clock_unread
unread_of clock_control = clock_control_unread
unread_of activity_calendar = activity_calendar_unread
unread_of special_days_table = special_days_table_unread
unread_of tariff_plan = tariff_plan_unread
unread_of tariff_table = tariff_table_unread
unread_of serial_port = serial_port_unread
unread_of infrared_setup = infrared_setup_unread
unread_of rs485_setup = rs485_setup_unread
unread_of lp_setup = lp_setup_unread
unread_of mbus_client = mbus_client_unread
unread_of mbus_master = mbus_master_unread
unread_of gprs_modem_setup = gprs_modem_setup_unread
unread_of auto_connect = auto_connect_unread
unread_of lorawan_setup = lorawan_setup_unread
unread_of nbiot_setup = nbiot_setup_unread
unread_of wisun_setup = wisun_setup_unread
unread_of ipv4_setup = ipv4_setup_unread
unread_of mac_address_setup = mac_address_setup_unread
unread_of ntp_setup = ntp_setup_unread
unread_of smtp_setup = smtp_setup_unread
unread_of route = route_unread
unread_of push_setup = push_setup_unread
unread_of association_ln = association_ln_unread
unread_of security_setup = security_setup_unread
unread_of direct_disconnect = direct_disconnect_unread
unread_of sensor_manager = sensor_manager_unread
unread_of ups = ups_unread
unread_of limiter = []
unread_of image_transfer = []
unread_of disconnect_control = []
