-- ===== src/Client/Delivery.antt =====
-- A small file from one client of 07/client.c, through 07/server.c, to another.
use eltex_modul.Server.{Client, Server}
use eltex_modul.Server.Message
use eltex_modul.Server.Inv.{Inv}
